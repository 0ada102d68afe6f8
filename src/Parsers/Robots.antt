-- ===== src/Parsers/Robots.antt =====
-- parsers/robots.py: `parse_robots_txt`, with the tokens of registry/ai_bots.py. The parser of `urllib`
-- runs too, and what it gives is dropped; it is a parameter that may raise. The tests of the loop on one
-- line (`read_line`) and what each of them does (`take_line`) are two functions.
pub mod Lines
mod Groups
mod Kept
mod Blank
pub mod Listed
mod Tests
use Prim.Native.Char.{Char, code}
use Prim.Native.String
use Prim.Native.String.{count}
use scovant_core.Prelude.{
  ℕ, suc, String, Bool, true, false, not, ◌&&◌, ◌||◌, Option, none, some, List, [], ◌∷◌, ◌++◌, map,
  leb, ◌==◌, if◌then◌else◌, str_eq, contains, lookup, keys, starts_with, lower, strip, occurs,
  Result, ok, err, ◌>>◌,
}

-- `AI_USER_AGENTS`, by token
abbrev pub ai_user_agents : List String
ai_user_agents =
    "OAI-SearchBot" ∷ "ChatGPT-User" ∷ "GPTBot" ∷ "Claude-SearchBot" ∷ "Claude-User" ∷ "ClaudeBot"
    ∷ "PerplexityBot" ∷ "Perplexity-User" ∷ "DuckAssistBot" ∷ "Applebot" ∷ "Applebot-Extended"
    ∷ "Google-Extended" ∷ "CCBot" ∷ []

-- `SEARCH_ENGINE_CRAWLERS`, by token
abbrev pub search_engine_crawlers : List String
search_engine_crawlers = "Googlebot" ∷ "Bingbot" ∷ []

-- `_AI_AGENTS`
abbrev pub ai_agents : List String
ai_agents = ai_user_agents ++ search_engine_crawlers

-- the characters at which `str.splitlines` ends a line
is_break : Char → Bool
is_break c =
    let n = code c in
    leb 10 n && leb n 13 || leb 28 n && leb n 30 || n == 133 || leb 8232 n && leb n 8233

put_first : Char → List String → List String
put_first c [] = String.◌∷◌ c "" ∷ []
put_first c (l ∷ ls) = String.◌∷◌ c l ∷ ls

-- `str.splitlines`: a carriage return before a newline is part of one line end
unfoldable pub splitlines : String → List String
unfolding is_break put_first
splitlines String.[] = []
splitlines (String.◌∷◌ c s) =
    let rest = splitlines s in
    if code c == 13 && starts_with s "\n"
    then rest
    else if is_break c
    then "" ∷ rest
    else put_first c rest

-- `s[n:]`
skip : ℕ → String → String
skip ℕ.zero s = s
skip (ℕ.suc n) String.[] = ""
skip (ℕ.suc n) (String.◌∷◌ c s) = skip n s

-- `line[:line.index("#")]`
before_hash : String → String
before_hash String.[] = ""
before_hash (String.◌∷◌ c s) =
    let rest = before_hash s in if code c == b'#' then "" else String.◌∷◌ c rest

-- a line without white space around it and without its comment
unfoldable pub bare_line : String → String
unfolding before_hash strip occurs
bare_line raw = let line = strip raw in if occurs "#" line then strip (before_hash line) else line

-- `line[len(prefix):].strip()`
unfoldable pub argument : String → String → String
unfolding skip strip
argument prefix line = strip (skip (count prefix) line)

pub data Rule : Type 0 where
  allow disallow : Rule

-- what the loop does with a line
pub data Directive : Type 0 where
  blank other : Directive
  user_agent : String → Directive
  rule : Rule → (path : String) → Directive
  sitemap : String → Directive

unfoldable pub read_bare : String → Directive
unfolding argument lower
read_bare line =
    let has : String → Bool = λ prefix. starts_with (lower line) prefix in
    if str_eq line ""
    then blank
    else if has "user-agent:"
    then user_agent (argument "user-agent:" line)
    else if has "disallow:"
    then rule disallow (argument "disallow:" line)
    else if has "allow:"
    then rule allow (argument "allow:" line)
    else if has "sitemap:"
    then sitemap (argument "sitemap:" line)
    else other

unfoldable pub read_line : String → Directive
unfolding read_bare bare_line
read_line raw = read_bare (bare_line raw)

-- `{"allow": […], "disallow": […]}`
pub record Group : Type 0 where
  pub allowed : List String
  pub disallowed : List String

-- the result: the groups of "general" and of each token, and the sitemaps
pub record Parsed : Type 0 where
  pub groups : List (String × Group)
  pub sitemaps : List String

abbrev pub no_group : Group
no_group = record { allowed = []; disallowed = [] }

abbrev pub no_groups : List (String × Group)
no_groups = map (λ agent. (agent, no_group)) ("general" ∷ ai_agents)

abbrev pub nothing_parsed : Parsed
nothing_parsed = record { groups = no_groups; sitemaps = [] }

abbrev pub with_path : Rule → String → Group → Group
with_path allow path g = record g { allowed = g.allowed ++ path ∷ [] }
with_path disallow path g = record g { disallowed = g.disallowed ++ path ∷ [] }

-- `result[agent][rule].append(path)`; each agent that the code writes to is a key
unfoldable pub append_to : String → Rule → String → List (String × Group) → List (String × Group)
append_to agent r path [] = []
append_to agent r path ((k, g) ∷ groups) =
    let rest = append_to agent r path groups in
    if str_eq k agent then (k, with_path r path g) ∷ groups else (k, g) ∷ rest

-- the body of the loop over the current agents
unfoldable pub add_for : Rule → String → String → List (String × Group) → List (String × Group)
unfolding append_to
add_for r path agent groups =
    if str_eq agent "*"
    then (if str_eq path "" then groups else append_to "general" r path groups)
    else if contains ai_agents agent && not (str_eq path "")
    then append_to agent r path groups
    else groups

unfoldable pub add_for_each :
    Rule → String → List String → List (String × Group) → List (String × Group)
unfolding add_for
add_for_each r path [] groups = groups
add_for_each r path (agent ∷ agents) groups =
    add_for_each r path agents (add_for r path agent groups)

pub record Reading : Type 0 where
  pub current_agents : List String
  pub result : Parsed

unfoldable pub take_line : Directive → Reading → Reading
unfolding add_for_each
take_line blank s = record s { current_agents = [] }
take_line (user_agent agent) s = record s { current_agents = s.current_agents ++ agent ∷ [] }
take_line (rule r path) s = record s {
  result = record s.result { groups = add_for_each r path s.current_agents s.result.groups };
}
take_line (sitemap url) s =
    if str_eq url ""
    then s
    else record s { result = record s.result { sitemaps = s.result.sitemaps ++ url ∷ [] } }
take_line other s = s

-- the loop over the lines
unfoldable pub take_lines : List Directive → Reading → Reading
unfolding take_line
take_lines [] s = s
take_lines (line ∷ lines) s = take_lines lines (take_line line s)

unfoldable pub parse_lines : String → Parsed
unfolding take_lines splitlines read_line
parse_lines content =
    (take_lines (map read_line (splitlines content))
      (record { current_agents = []; result = nothing_parsed })).result

-- `parse_robots_txt`
unfoldable pub parse_robots_txt {ℓ} :
    {E : Type ℓ} → (robot_file_parser : String → Result E (Unit {0})) → String → Result E Parsed
unfolding parse_lines strip
parse_robots_txt robot_file_parser content =
    if str_eq (strip content) ""
    then ok nothing_parsed
    else robot_file_parser content >> ok (parse_lines content)
