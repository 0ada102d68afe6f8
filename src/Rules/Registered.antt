-- ===== src/Rules/Registered.antt =====
-- No code is claimed by two rules.
use mathlib.Core.List.{append-nil, append_assoc}
use scovant_core.Prelude.{
  String, ◌≡◌, refl, sym, ◌∙◌, ap, inl, inr, Bool, true, false, not, ◌||◌, or_false, not-false,
  List, [], ◌∷◌, ◌++◌, All, Bool-cases, str_eq, str_eq_sym, contains, repeats, any, ok, raised,
}
use scovant_core.Rules.{
  CoreRule, names_of, claimed, common, is_nil, is_release, blank, conforming, register_rule,
}

contains-append :
    (xs ys : List String) (s : String) → contains (xs ++ ys) s ≡ (contains xs s || contains ys s)
contains-append [] ys s = refl
contains-append (x ∷ xs) ys s = elim (Bool-cases (str_eq x s)) [
  | inl e ↦ rw e refl
  | inr e ↦ rw e (contains-append xs ys s)
]

or_none : (a b : Bool) → a ≡ false → b ≡ false → (a || b) ≡ false
or_none a b p q = rw (p, q) refl

common-nil :
    (ys xs : List String) → is_nil (common ys xs) ≡ true → All (λ y. contains xs y ≡ false) ys
common-nil [] xs h = tt
common-nil (y ∷ ys) xs h = elim (Bool-cases (contains xs y)) [
  | inl e ↦ let q = rw e at h in absurd cc
  | inr e ↦ (e, common-nil ys xs (rw e at h))
]

-- a text that stands in none of the lists `x ∷ xs` of the items
apart :
    (x : String) (xs ys : List String)
    → All (λ y. contains (x ∷ xs) y ≡ false) ys
    → (contains ys x ≡ false) × All (λ y. contains xs y ≡ false) ys
apart x xs [] h = (refl, tt)
apart x xs (y ∷ ys) h =
    let (here, rest) = or_false _ _ h.0 in
    let (none_later, later) = apart x xs ys h.1 in
    (or_none _ _ (str_eq_sym x y here) none_later, (rest, later))

-- two lists without repetition and without a common text
repeats-append :
    (xs ys : List String)
    → repeats xs ≡ false
    → repeats ys ≡ false
    → All (λ y. contains xs y ≡ false) ys
    → repeats (xs ++ ys) ≡ false
repeats-append [] ys p q h = q
repeats-append (x ∷ xs) ys p q h =
    let (new, rest) = or_false _ _ p in
    let (other, later) = apart x xs ys h in
    or_none _ _ (contains-append xs ys x ∙ or_none _ _ new other)
      (repeats-append xs ys rest q later)

claimed-append :
    (rs : List CoreRule) (r : CoreRule) → claimed (rs ++ r ∷ []) ≡ claimed rs ++ names_of r
claimed-append [] r = append-nil (names_of r)
claimed-append (q ∷ rs) r =
    ap (λ xs. names_of q ++ xs) (claimed-append rs r)
    ∙ sym (append_assoc (names_of q) (claimed rs) (names_of r))

-- what `register_rule` has seen of a rule that it accepts, and the rules that it leaves
pub record IsAccepted (r : CoreRule) (rules after : List CoreRule) : Type 0 where
  own : (contains r.aliases r.code || repeats r.aliases) ≡ false
  free : is_nil (common (names_of r) (claimed rules)) ≡ true
  pub made : rules ++ conforming r ∷ [] ≡ after

pub register_rule-IsAccepted :
    (r : CoreRule) (rules : List CoreRule) {after : List CoreRule}
    → register_rule r rules ≡ ok after
    → IsAccepted r rules after
unfolding register_rule
register_rule-IsAccepted r rules h =
    let (_, h1) = raised (not (is_release r.since)) _ h in
    let (_, h2) = raised (any blank r.aliases) _ h1 in
    let (own, h3) = raised (contains r.aliases r.code || repeats r.aliases) _ h2 in
    let (free, h4) = raised (not (is_nil (common (names_of r) (claimed rules)))) _ h3 in
    record { own = own; free = not-false _ free; made = cc }

-- Registering a rule keeps the codes apart: if no code or alias of the registered rules stands twice
-- among them, then none does after `register_rule` has accepted a rule, whose code and aliases are
-- then claimed last.
register_rule-claimed :
    (r : CoreRule) (rules : List CoreRule) {after : List CoreRule}
    → repeats (claimed rules) ≡ false
    → register_rule r rules ≡ ok after
    → (claimed after ≡ claimed rules ++ names_of r) × (repeats (claimed after) ≡ false)
register_rule-claimed r rules {after} p h =
    let a = register_rule-IsAccepted r rules h in
    let names : claimed after ≡ claimed rules ++ names_of r =
      ap claimed (sym a.made) ∙ claimed-append rules (conforming r) in
    (
      names,
      ap repeats names
          ∙ repeats-append (claimed rules) (names_of r) p a.own
              (common-nil (names_of r) (claimed rules) a.free),
    )

-- rules put into the registry one after the other, from none
pub data AreRegistered : List CoreRule → Type 0 where
  no_rules : AreRegistered []
  registered :
      {rules after : List CoreRule} (r : CoreRule)
      → AreRegistered rules
      → register_rule r rules ≡ ok after
      → AreRegistered after

pub claimed_once : {rules : List CoreRule} → AreRegistered rules → repeats (claimed rules) ≡ false
claimed_once no_rules = refl
claimed_once (registered r before made) = (register_rule-claimed r _ (claimed_once before) made).1
