-- ===== src/Parsers/Robots/Groups.antt =====
-- What one rule of the robots.txt adds to the groups.
use scovant_core.Prelude.{
  String, ◌≡◌, refl, sym, ap, ◌∙◌, inl, inr, Bool, true, false, not, ◌&&◌, ◌||◌, some, List, [],
  ◌∷◌, ◌++◌, any, Bool-cases, str_eq, contains, keys, eq_iff, differ, arith,
}
use scovant_core.Parsers.Robots.{
  Rule, allow, disallow, ai_agents, Group, with_path, append_to, add_for, add_for_each,
}
use scovant_core.Parsers.Robots.Lines.{is_for, same_rule, rule_paths, has_path}

contains-append :
    (xs : List String) (x y : String) → contains (xs ++ x ∷ []) y ≡ (contains xs y || str_eq x y)
contains-append [] x y = ground arith
contains-append (z ∷ xs) x y = rw (contains-append xs x y) (ground arith)

rule_paths-with_path :
    (q r : Rule) (p path : String) (g : Group)
    → contains (rule_paths r (some (with_path q p g))) path
      ≡ (contains (rule_paths r (some g)) path || same_rule q r && str_eq p path)
rule_paths-with_path allow allow p path g = contains-append g.allowed p path
rule_paths-with_path disallow disallow p path g = contains-append g.disallowed p path
rule_paths-with_path allow disallow p path g = ground arith
rule_paths-with_path disallow allow p path g = ground arith

or_no_and : (b c : Bool) → b ≡ (b || c && false)
or_no_and b c = ground arith

or_yes : (a : Bool) {b : Bool} → b ≡ true → (a || b) ≡ true
or_yes a h = ground arith

or_and_or : (c a b x : Bool) → (c || a && x || b && x) ≡ (c || (a || b) && x)
or_and_or c a b x = ground arith

no_and_no : (a b c : Bool) → (a && (c && false)) ≡ (b && (c && false))
no_and_no a b c = ground arith

pub or_no : (b : Bool) → b ≡ (b || false)
or_no true = refl
or_no false = refl

keys-append_to :
    (agent : String) (r : Rule) (path : String) (groups : List (String × Group))
    → keys (append_to agent r path groups) ≡ keys groups
unfolding append_to
keys-append_to agent r path [] = refl
keys-append_to agent r path ((k, g) ∷ groups) = elim (Bool-cases (str_eq k agent)) [
  | inl e ↦ rw e refl
  | inr e ↦ rw e (ap (λ ks. k ∷ ks) (keys-append_to agent r path groups))
]

has_path-append_to :
    (q r : Rule) (agent key p path : String) (groups : List (String × Group))
    → contains (keys groups) agent ≡ true
    → has_path r key path (append_to agent q p groups)
      ≡ (has_path r key path groups || str_eq agent key && (same_rule q r && str_eq p path))
unfolding append_to
has_path-append_to q r agent key p path [] h = absurd cc
has_path-append_to q r agent key p path ((k, g) ∷ groups) h = elim (Bool-cases (str_eq k agent)) [
  | inl e ↦
      let alike = ap (λ a. str_eq a key) ((eq_iff k agent).0 e) in
      elim (Bool-cases (str_eq k key)) [
        | inl m ↦ rw (e, m, sym alike ∙ m) (rule_paths-with_path q r p path g)
        | inr m ↦ rw (e, m, sym alike ∙ m) (or_no _)
      ]
  | inr e ↦
      let later = sym (ap (λ b. b || contains (keys groups) agent) e) ∙ h in
      elim (Bool-cases (str_eq k key)) [
        | inl m ↦ rw (e, m, differ k agent key e m) (or_no _)
        | inr m ↦ rw (e, m) (has_path-append_to q r agent key p path groups later)
      ]
]

-- the keys of the result never change, and each group that is written to is one of them
abbrev pub HasKeys : List (String × Group) → Type 0
HasKeys groups = keys groups ≡ "general" ∷ ai_agents

-- a rule adds its path to the groups of the current agents, unless the path is empty
abbrev pub adds : Rule → Rule → String → String → Bool
adds q r p path = not (str_eq p "") && (same_rule q r && str_eq p path)

HasKeys-append_to :
    (agent : String) (r : Rule) (path : String) (groups : List (String × Group))
    → HasKeys groups
    → HasKeys (append_to agent r path groups)
HasKeys-append_to agent r path groups h = keys-append_to agent r path groups ∙ h

HasKeys-add_for :
    (r : Rule) (path agent : String) (groups : List (String × Group))
    → HasKeys groups
    → HasKeys (add_for r path agent groups)
unfolding add_for
HasKeys-add_for r path agent groups h = elim (Bool-cases (str_eq agent "*")) [
  | inl e ↦ elim (Bool-cases (str_eq path "")) [
    | inl m ↦ rw (e, m) h
    | inr m ↦ rw (e, m) (HasKeys-append_to "general" r path groups h)
  ]
  | inr e ↦ elim (Bool-cases (contains ai_agents agent && not (str_eq path ""))) [
    | inl m ↦ rw (e, m) (HasKeys-append_to agent r path groups h)
    | inr m ↦ rw (e, m) h
  ]
]

has_path-add_for :
    (q r : Rule) (p agent key path : String) (groups : List (String × Group))
    → HasKeys groups
    → has_path r key path (add_for q p agent groups)
      ≡ (has_path r key path groups || is_for key agent && adds q r p path)
unfolding add_for is_for
has_path-add_for q r p agent key path groups h = elim (Bool-cases (str_eq agent "*")) [
  | inl e ↦ elim (Bool-cases (str_eq p "")) [
    | inl m ↦ rw (e, m) (or_no_and _ (str_eq "general" key))
    | inr m ↦
        rw (e, m)
          (has_path-append_to q r "general" key p path groups (ap (λ ks. contains ks "general") h))
  ]
  | inr e ↦ elim (Bool-cases (contains ai_agents agent)) [
    | inl c ↦ elim (Bool-cases (str_eq p "")) [
      | inl m ↦ rw (e, c, m) (or_no_and _ (str_eq agent key))
      | inr m ↦
          rw (e, c, m)
            (has_path-append_to q r agent key p path groups
              (ap (λ ks. contains ks agent) h ∙ or_yes (str_eq "general" agent) c))
    ]
    | inr c ↦ rw (e, c) (or_no _)
  ]
]

pub has_path-add_for_each :
    (q r : Rule) (p key path : String) (agents : List String) (groups : List (String × Group))
    → HasKeys groups
    → has_path r key path (add_for_each q p agents groups)
      ≡ (has_path r key path groups || any (is_for key) agents && adds q r p path)
unfolding add_for_each
has_path-add_for_each q r p key path [] groups h = or_no _
has_path-add_for_each q r p key path (a ∷ agents) groups h =
    has_path-add_for_each q r p key path agents (add_for q p a groups)
      (HasKeys-add_for q p a groups h)
    ∙ ap (λ b. b || any (is_for key) agents && adds q r p path)
        (has_path-add_for q r p a key path groups h)
    ∙ or_and_or (has_path r key path groups) (is_for key a) (any (is_for key) agents)
        (adds q r p path)

pub HasKeys-add_for_each :
    (q : Rule) (p : String) (agents : List String) (groups : List (String × Group))
    → HasKeys groups
    → HasKeys (add_for_each q p agents groups)
unfolding add_for_each
HasKeys-add_for_each q p [] groups h = h
HasKeys-add_for_each q p (a ∷ agents) groups h =
    HasKeys-add_for_each q p agents (add_for q p a groups) (HasKeys-add_for q p a groups h)

-- a path that is equal to another is empty if that is
pub adds_path :
    (q r : Rule) (p path : String)
    → adds q r p path ≡ (not (str_eq path "") && (same_rule q r && str_eq p path))
adds_path q r p path = elim (Bool-cases (str_eq p path)) [
  | inl e ↦ rw (ap (λ s. str_eq s "") ((eq_iff p path).0 e)) refl
  | inr e ↦ rw e (no_and_no (not (str_eq p "")) (not (str_eq path "")) (same_rule q r))
]
