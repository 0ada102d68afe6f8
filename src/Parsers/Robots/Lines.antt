-- ===== src/Parsers/Robots/Lines.antt =====
-- What a robots.txt says of a crawler, line by line, and what the groups hold.
use scovant_core.Prelude.{
  String, Bool, true, false, not, ◌&&◌, ◌||◌, Option, none, some, List, [], ◌∷◌, map, if◌then◌else◌,
  str_eq, contains, lookup,
}
use scovant_core.Parsers.Robots.{
  Rule, allow, disallow, Directive, blank, user_agent, rule, ai_agents, Group, splitlines,
  read_line,
}

-- the group that a `User-agent` line names
unfoldable pub is_for : String → String → Bool
is_for key agent =
    if str_eq agent "*" then str_eq "general" key else contains ai_agents agent && str_eq agent key

abbrev pub same_rule : Rule → Rule → Bool
same_rule allow allow = true
same_rule disallow disallow = true
same_rule _ _ = false

abbrev pub names : String → Directive → Bool
names key (user_agent agent) = is_for key agent
names key _ = false

abbrev pub states : Rule → String → Directive → Bool
states r path (rule q p) = same_rule q r && str_eq p path
states r path _ = false

abbrev pub is_blank : Directive → Bool
is_blank blank = true
is_blank _ = false

-- a line with the rule, and no blank line before it
abbrev pub follows : Rule → String → List Directive → Bool
follows r path [] = false
follows r path (line ∷ lines) = states r path line || not (is_blank line) && follows r path lines

-- a `User-agent` line that names the group, and behind it a line with the rule, with no blank line
-- between them
abbrev pub listed : Rule → String → String → List Directive → Bool
listed r key path [] = false
listed r key path (line ∷ lines) = names key line && follows r path lines || listed r key path lines

abbrev pub rule_paths : Rule → Option Group → List String
rule_paths r none = []
rule_paths allow (some g) = g.allowed
rule_paths disallow (some g) = g.disallowed

-- `result[key][rule]`
abbrev pub paths_of : Rule → String → List (String × Group) → List String
paths_of r key groups = rule_paths r (lookup key groups)

-- whether a path is a text, and in the group
abbrev pub has_path : Rule → String → String → List (String × Group) → Bool
has_path r key path groups = contains (paths_of r key groups) path

-- the lines of a text
abbrev pub directives : String → List Directive
directives content = map read_line (splitlines content)
