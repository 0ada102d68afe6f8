-- ===== src/Owasp.antt =====
-- owasp.py: the OWASP entries that a check declares or a rule has.
pub mod Served
use Prim.Native.Char.{code}
use scovant_core.Prelude.{
  ℕ, String, Bool, true, false, not, ◌&&◌, ◌||◌, Option, none, some, List, [], ◌∷◌, leb, ◌==◌,
  if◌then◌else◌, str_eq, starts_with, is_none, contains, lookup, upper, concat, drop_prefix, Result,
  ok, err, ◌>>=◌, ◌>>◌, raise_if,
}
use scovant_core.Models.{OwaspEntry}

abbrev pub asi_titles : List (String × String)
asi_titles =
    ("ASI01", "Agent Goal Hijack")
    ∷ ("ASI02", "Tool Misuse & Exploitation")
    ∷ ("ASI03", "Identity & Privilege Abuse")
    ∷ ("ASI04", "Agentic Supply Chain Vulnerabilities")
    ∷ ("ASI05", "Unexpected Code Execution")
    ∷ ("ASI06", "Memory & Context Poisoning")
    ∷ ("ASI07", "Insecure Inter-Agent Communication")
    ∷ ("ASI08", "Cascading Failures")
    ∷ ("ASI09", "Human-Agent Trust Exploitation")
    ∷ ("ASI10", "Rogue Agents")
    ∷ []

abbrev pub relations : List String
relations = "EXACT" ∷ "PARTIAL" ∷ "SCOVANT_SUPERSET" ∷ "FRAMEWORK_ONLY" ∷ "NOT_APPLICABLE" ∷ []

pub data OwaspError : Type 0 where
  unknown_category : String → OwaspError
  unknown_relation : String → OwaspError
  unreadable : String → OwaspError

abbrev titled : String → String → Option String → Result OwaspError OwaspEntry
titled asi relation none = err (unknown_category asi)
titled asi relation (some title) =
    if contains relations relation
    then ok (record { id = asi; title = title; relation = relation })
    else err (unknown_relation relation)

-- `entry`
unfoldable pub entry : String → String → Result OwaspError OwaspEntry
entry asi relation = titled asi relation (lookup asi asi_titles)

-- The end of `_STANDARD`: `[a-z_]+` up to the closing parenthesis, with nothing behind it but a line
-- feed. The value is the group of letters.
word_char : ℕ → Bool
word_char c = leb b'a' c && leb c b'z' || c == b'_'

ends_here : String → Bool
ends_here s = str_eq s "" || str_eq s "\n"

prepend : String → Option String → Option String
prepend c none = none
prepend c (some s) = some (concat c s)

word_then_paren : String → Option String
unfolding word_char ends_here prepend
word_then_paren String.[] = none
word_then_paren (String.◌∷◌ c s) =
    let rest = word_then_paren s in
    if word_char (code c)
    then prepend (String.◌∷◌ c String.[]) rest
    else if code c == b')' && ends_here s
    then some ""
    else none

non_empty : Option String → Option String
non_empty none = none
non_empty (some s) = if str_eq s "" then none else some s

-- `_STANDARD.match`, for one category after the other
relation_of : String → Option String → Option String
unfolding word_then_paren non_empty
relation_of asi none = none
relation_of asi (some rest) = non_empty (word_then_paren rest)

match_ids : List (String × String) → String → Option (String × String)
unfolding relation_of drop_prefix
match_ids [] std = none
match_ids ((asi, title) ∷ ids) std =
    let rest = match_ids ids std in
    elim (relation_of asi
      (drop_prefix (concat "OWASP Agentic Top 10 2026: " (concat asi " (")) std)) [
        | some relation ↦ some (asi, relation)
        | none ↦ rest
      ]

unfoldable pub match_standard : String → Option (String × String)
unfolding match_ids
match_standard std = match_ids asi_titles std

abbrev pub read_entry : String → Option (String × String) → Result OwaspError OwaspEntry
read_entry std none = err (unreadable std)
read_entry std (some (asi, relation)) = entry asi (upper relation)

-- `parse_standards`
unfoldable pub parse_standards : List String → Result OwaspError (List OwaspEntry)
unfolding match_standard entry
parse_standards [] = ok []
parse_standards (std ∷ stds) =
    let rest = parse_standards stds in
    let here = do e ← read_entry std (match_standard std); es ← rest; ok (e ∷ es)
    in if starts_with std "OWASP" then here else rest

-- `RULE_MAPPINGS`
abbrev pub rule_mappings : List (String × List (String × String))
rule_mappings =
    ("AGENT-META-001", ("ASI01", "PARTIAL") ∷ [])
    ∷ ("AGENT-META-008", ("ASI01", "PARTIAL") ∷ [])
    ∷ ("WEBMCP-004", ("ASI01", "PARTIAL") ∷ [])
    ∷ ("AGENT-META-004", ("ASI02", "PARTIAL") ∷ [])
    ∷ ("TOOL-RISK-001", ("ASI02", "PARTIAL") ∷ [])
    ∷ ("WEBMCP-005", ("ASI02", "PARTIAL") ∷ [])
    ∷ ("MCP-AUTH-001", ("ASI03", "PARTIAL") ∷ [])
    ∷ ("LLMS-SUPPLY-002", ("ASI04", "PARTIAL") ∷ [])
    ∷ ("LLMS-SUPPLY-006", ("ASI04", "PARTIAL") ∷ ("ASI05", "PARTIAL") ∷ [])
    ∷ ("LLMS-SUPPLY-008", ("ASI04", "PARTIAL") ∷ [])
    ∷ []

abbrev pub entries_of : List (String × String) → Result OwaspError (List OwaspEntry)
entries_of [] = ok []
entries_of ((asi, relation) ∷ rest) = do e ← entry asi relation; es ← entries_of rest; ok (e ∷ es)

abbrev pub or_none : Option (List (String × String)) → List (String × String)
or_none none = []
or_none (some ms) = ms

-- `for_rule`
unfoldable pub for_rule : String → Result OwaspError (List OwaspEntry)
unfolding entry
for_rule code = entries_of (or_none (lookup code rule_mappings))
