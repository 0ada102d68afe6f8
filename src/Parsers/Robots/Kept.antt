-- ===== src/Parsers/Robots/Kept.antt =====
-- That the groups hold what the lines say.
use scovant_core.Prelude.{
  String, ◌≡◌, refl, sym, ◌∙◌, inl, inr, Bool, false, not, ◌&&◌, ◌||◌, none, some, List, [], ◌∷◌,
  ◌++◌, map, any, Bool-cases, str_eq, contains, arith,
}
use scovant_core.Parsers.Robots.{
  Rule, allow, disallow, Directive, blank, other, user_agent, rule, sitemap, ai_agents, no_group,
  nothing_parsed, Reading, take_line, take_lines, parse_lines,
}
use scovant_core.Parsers.Robots.Groups.{
  or_no, HasKeys, has_path-add_for_each, HasKeys-add_for_each, adds_path,
}
use scovant_core.Parsers.Robots.Lines.{
  is_for, same_rule, follows, listed, rule_paths, has_path, directives,
}

or_assoc : (a b c : Bool) → (a || (b || c)) ≡ (a || b || c)
or_assoc a b c = ground arith

after_last : (c n a : Bool) → c ≡ (c || n && (a && false || false))
after_last c n a = ground arith

after_blank : (c n a f l : Bool) → (c || n && l) ≡ (c || n && (a && (false || false && f) || l))
after_blank c n a f l = ground arith

after_agent :
    (c n a b f l : Bool) → (c || n && ((a || b) && f || l)) ≡ (c || n && (a && f || (b && f || l)))
after_agent c n a b f l = ground arith

after_rule :
    (c n a s f l : Bool)
    → (c || a && (n && s) || n && (a && f || l)) ≡ (c || n && (a && (s || f) || l))
after_rule c n a s f l = ground arith

any-append :
    (key a : String) (agents : List String)
    → any (is_for key) (agents ++ a ∷ []) ≡ (any (is_for key) agents || is_for key a)
any-append key a [] = sym (or_no _)
any-append key a (b ∷ agents) =
    rw (any-append key a agents) (or_assoc (is_for key b) (any (is_for key) agents) (is_for key a))

module _ (r : Rule) (key path : String) where
  abbrev held : Reading → Bool
  held s = has_path r key path s.result.groups

  abbrev waits : Reading → Bool
  waits s = any (is_for key) s.current_agents

  abbrev nonempty : Bool
  nonempty = not (str_eq path "")

  -- whether the lines behind a state add the path to the group
  abbrev to_come : List Directive → Reading → Bool
  to_come lines s = nonempty && (waits s && follows r path lines || listed r key path lines)

  take_lines-has_path :
      (lines : List Directive) (s : Reading)
      → HasKeys s.result.groups
      → has_path r key path (take_lines lines s).result.groups ≡ (held s || to_come lines s)
  unfolding take_lines take_line
  take_lines-has_path [] s h = after_last (held s) nonempty (waits s)
  take_lines-has_path (blank ∷ lines) s h =
      take_lines-has_path lines (take_line blank s) h
      ∙ after_blank (held s) nonempty (waits s) (follows r path lines) (listed r key path lines)
  take_lines-has_path (other ∷ lines) s h = take_lines-has_path lines s h
  take_lines-has_path (sitemap url ∷ lines) s h = elim (Bool-cases (str_eq url "")) [
    | inl e ↦ rw (e, take_lines, take_line) (take_lines-has_path lines s h)
    | inr e ↦ rw (e, take_lines, take_line) (take_lines-has_path lines _ h)
  ]
  take_lines-has_path (user_agent a ∷ lines) s h =
      take_lines-has_path lines (take_line (user_agent a) s) h
      ∙ rw (any-append key a s.current_agents) (
          after_agent (held s) nonempty (waits s) (is_for key a) (follows r path lines)
            (listed r key path lines))
  take_lines-has_path (rule q p ∷ lines) s h =
      take_lines-has_path lines (take_line (rule q p) s)
        (HasKeys-add_for_each q p s.current_agents s.result.groups h)
      ∙ rw
          (
            has_path-add_for_each q r p key path s.current_agents s.result.groups h,
            adds_path q r p path,
          )
          (after_rule (held s) nonempty (waits s) (same_rule q r && str_eq p path)
            (follows r path lines) (listed r key path lines))

rule_paths-none : (r : Rule) (path : String) → contains (rule_paths r none) path ≡ false
rule_paths-none allow path = refl
rule_paths-none disallow path = refl

rule_paths-no_group :
    (r : Rule) (path : String) → contains (rule_paths r (some no_group)) path ≡ false
rule_paths-no_group allow path = refl
rule_paths-no_group disallow path = refl

pub no_groups-has_path :
    (r : Rule) (key path : String) (agents : List String)
    → has_path r key path (map (λ agent. (agent, no_group)) agents) ≡ false
no_groups-has_path r key path [] = rule_paths-none r path
no_groups-has_path r key path (a ∷ agents) = elim (Bool-cases (str_eq a key)) [
  | inl e ↦ rw e (rule_paths-no_group r path)
  | inr e ↦ rw e (no_groups-has_path r key path agents)
]

-- the groups at the end of the loop
pub parse_lines-has_path :
    (r : Rule) (key path content : String)
    → has_path r key path (parse_lines content).groups
      ≡ (not (str_eq path "") && listed r key path (directives content))
unfolding parse_lines
parse_lines-has_path r key path content =
    take_lines-has_path r key path (directives content)
      (record { current_agents = []; result = nothing_parsed }) refl
    ∙ rw (no_groups-has_path r key path ("general" ∷ ai_agents)) refl
