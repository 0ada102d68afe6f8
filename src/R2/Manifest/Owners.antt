-- ===== src/R2/Manifest/Owners.antt =====
-- What `Manifest.__init__` makes sure of.
use mathlib.Core.Path.{subst}
use scovant_core.Prelude.{
  raised, not-false, String, ◌≡◌, refl, sym, ◌∙◌, ap, inl, inr, true, false, Option, none, some,
  List, [], ◌∷◌, map, All, All_map, Bool-cases, Option-cases, or_false, str_eq, str_leb, eq_iff,
  eq_refl, str_eq_sym, contains, repeats, lookup, lookup-insert, set_default, ==_iff, ok, >>=-eq-ok,
}
use scovant_core.Prelude.Sort.{sort_by}
use scovant_core.R2.Outcome.{R2Category, category_eq, category_index}
use scovant_core.R2.Manifest
use scovant_core.R2.Manifest.{
  RuleSpec, ManifestError, duplicate_rule_id, signal_owned_twice, Manifest, check_owners, differs,
  is_merged, check_groups, make_manifest, find_spec,
}

record Owned (ids signals : List String) (s : RuleSpec) : Type 0 where
  pub new_id : contains ids s.rule_id ≡ false
  pub new_signal : contains signals s.signal ≡ false

contains_none :
    (f : RuleSpec → String) (x : String) (ids : List String) (ss : List RuleSpec)
    → All (λ t. contains (x ∷ ids) (f t) ≡ false) ss
    → (contains (map f ss) x ≡ false) × All (λ t. contains ids (f t) ≡ false) ss
contains_none f x ids [] h = (refl, tt)
contains_none f x ids (s ∷ ss) h =
    let (apart, old) = or_false _ _ h.0 in
    let rest = contains_none f x ids ss h.1 in (rw (str_eq_sym x (f s) apart) rest.0, (old, rest.1))

record AreOwned (ids signals : List String) (ss : List RuleSpec) : Type 0 where
  pub new_ids : All (λ s. contains ids s.rule_id ≡ false) ss
  pub new_signals : All (λ s. contains signals s.signal ≡ false) ss
  pub ids_once : repeats (map (λ s. s.rule_id) ss) ≡ false
  pub signals_once : repeats (map (λ s. s.signal) ss) ≡ false

check_owners-AreOwned :
    (ss : List RuleSpec) (ids signals : List String)
    → check_owners ss ids signals ≡ ok tt
    → AreOwned ids signals ss
unfolding check_owners
check_owners-AreOwned [] ids signals h = record {
  new_ids = tt;
  new_signals = tt;
  ids_once = refl;
  signals_once = refl;
}
check_owners-AreOwned (s ∷ ss) ids signals h =
    let (p, h') = raised (contains ids s.rule_id) _ h in
    let (q, h'') = raised (contains signals s.signal) _ h' in
    let rest = check_owners-AreOwned ss (s.rule_id ∷ ids) (s.signal ∷ signals) h'' in
    let i = contains_none (λ t. t.rule_id) s.rule_id ids ss rest.new_ids in
    let j = contains_none (λ t. t.signal) s.signal signals ss rest.new_signals in
    record {
      new_ids = (p, i.1);
      new_signals = (q, j.1);
      ids_once = rw i.0 rest.ids_once;
      signals_once = rw j.0 rest.signals_once;
    }

-- the rule that `get` finds for the id of a rule of the list
find_spec-own :
    (s : RuleSpec) (ss ts : List RuleSpec)
    → contains (map (λ t. t.rule_id) ts) s.rule_id ≡ false
    → All (λ t. find_spec t.rule_id ss ≡ some t) ts
    → All (λ t. find_spec t.rule_id (s ∷ ss) ≡ some t) ts
unfolding find_spec
find_spec-own s ss [] h k = tt
find_spec-own s ss (t ∷ ts) h k =
    let (apart, rest) = or_false _ _ h in
    (rw (str_eq_sym t.rule_id s.rule_id apart) k.0, find_spec-own s ss ts rest k.1)

find_spec-each :
    (ss : List RuleSpec)
    → repeats (map (λ t. t.rule_id) ss) ≡ false
    → All (λ t. find_spec t.rule_id ss ≡ some t) ss
unfolding find_spec
find_spec-each [] h = tt
find_spec-each (s ∷ ss) h =
    let (here, rest) = or_false _ _ h in
    (rw (eq_refl s.rule_id) refl, find_spec-own s ss ss here (find_spec-each ss rest))

-- a merged rule has the category that its group has already
abbrev Fits : List (String × R2Category) → RuleSpec → Type 0
Fits seen s =
    is_merged s ≡ true
    → (c : R2Category) → lookup s.root_cause_group seen ≡ some c
    → category_eq c s.category ≡ true

abbrev pub Aligned : RuleSpec → RuleSpec → Type 0
Aligned s t =
    is_merged s ≡ true
    → is_merged t ≡ true
    → str_eq s.root_cause_group t.root_cause_group ≡ true
    → category_eq s.category t.category ≡ true

-- two weighted rules of one root cause have one category
abbrev pub AreAligned : List RuleSpec → Type 0
AreAligned [] = Unit
AreAligned (s ∷ ss) = All (Aligned s) ss × AreAligned ss

lookup-set_default :
    (g k : String) (c : R2Category) (seen : List (String × R2Category)) {d : R2Category}
    → lookup k seen ≡ some d
    → lookup k (set_default g c seen) ≡ some d
lookup-set_default g k c seen h = elim (Option-cases (lookup g seen)) [
  | inr (e, q) ↦ rw q h
  | inl q ↦ elim (Bool-cases (str_eq g k)) [
    | inl z ↦
        let same : g ≡ k = (eq_iff g k).0 z in
        let r : lookup k seen ≡ none = ap (λ x. lookup x seen) (sym same) ∙ q in absurd cc
    | inr z ↦ rw q (rw (lookup-insert g k c seen, z) h)
  ]
]

-- the category that a group has once a rule of it has been seen
lookup-first :
    (g : String) (c : R2Category) (seen : List (String × R2Category))
    → ((d : R2Category) → lookup g seen ≡ some d → category_eq d c ≡ true)
    → (d : R2Category) × (lookup g (set_default g c seen) ≡ some d) × (category_eq d c ≡ true)
lookup-first g c seen h = elim (Option-cases (lookup g seen)) [
  | inr (d, q) ↦ (d, rw q q, h d q)
  | inl q ↦ (
    c,
    rw q (lookup-insert g g c seen ∙ rw (eq_refl g) refl),
    (==_iff (category_index c) (category_index c)).1 refl,
  )
]

Fits-align :
    (s t : RuleSpec) (seen : List (String × R2Category)) (d : R2Category)
    → lookup s.root_cause_group seen ≡ some d
    → category_eq d s.category ≡ true
    → Fits seen t
    → Aligned s t
Fits-align s t seen d q e f _ mt same =
    let group : s.root_cause_group ≡ t.root_cause_group = (eq_iff _ _).0 same in
    let there : lookup t.root_cause_group seen ≡ some d = ap (λ x. lookup x seen) (sym group) ∙ q in
    let mine : category_index d ≡ category_index s.category = (==_iff _ _).0 e in
    let its : category_index d ≡ category_index t.category = (==_iff _ _).0 (f mt d there) in
    (==_iff _ _).1 (sym mine ∙ its)

record Grouped (seen : List (String × R2Category)) (ss : List RuleSpec) : Type 0 where
  pub fit : All (Fits seen) ss
  pub align : AreAligned ss

differs_fit :
    (first : Option R2Category) (c : R2Category)
    → differs first c ≡ false
    → (d : R2Category) → first ≡ some d
    → category_eq d c ≡ true
differs_fit none c h d q = absurd cc
differs_fit (some e) c h d q =
    let same : e ≡ d = cc in
    let yes : category_eq e c ≡ true = not-false _ h in ap (λ x. category_eq x c) (sym same) ∙ yes

check_groups-Grouped :
    (ss : List RuleSpec) (seen : List (String × R2Category))
    → check_groups ss seen ≡ ok tt
    → Grouped seen ss
unfolding check_groups
check_groups-Grouped [] seen h = record { fit = tt; align = tt }
check_groups-Grouped (s ∷ ss) seen h = elim (Bool-cases (is_merged s)) [
  | inr e ↦
      let rest = check_groups-Grouped ss seen (rw e at h) in
      record {
        fit = (λ m. absurd cc, rest.fit);
        align = (All_map _ _ (λ t _ m. absurd cc) ss rest.fit, rest.align);
      }
  | inl e ↦
      let (p, h') = raised (differs (lookup s.root_cause_group seen) s.category) _ (rw e at h) in
      let rest = check_groups-Grouped ss (set_default s.root_cause_group s.category seen) h' in
      let fit = differs_fit (lookup s.root_cause_group seen) s.category p in
      let (d, q, f) = lookup-first s.root_cause_group s.category seen fit in
      record {
        fit = (
          λ _. fit,
          All_map _ _ (λ t k m c r. k m c (lookup-set_default _ _ _ seen r)) ss rest.fit,
        );
        align = (All_map _ _ (λ t k. Fits-align s t _ d q f k) ss rest.fit, rest.align);
      }
]

pub record IsOwned (m : Manifest) : Type 0 where
  pub ids_once : repeats (map (λ s. s.rule_id) m.specs) ≡ false
  pub signals_once : repeats (map (λ s. s.signal) m.specs) ≡ false
  pub found : All (λ s. Manifest.get m s.rule_id ≡ some s) m.specs
  pub aligned : AreAligned m.specs

-- In a manifest that `Manifest.__init__` makes, no rule id and no signal stands twice, `get` finds
-- each rule under its id, and any two weighted rules of one root cause group have one category.
pub make_manifest-IsOwned :
    (specs : List RuleSpec) (applicability : Option String) {m : Manifest}
    → make_manifest specs applicability ≡ ok m
    → IsOwned m
unfolding make_manifest Manifest.get
make_manifest-IsOwned specs applicability {m} h =
    let ordered = sort_by (λ a b. str_leb a.rule_id b.rule_id) specs in
    let (x, p, h') = >>=-eq-ok (check_owners ordered [] []) _ h in
    let (y, q, h'') = >>=-eq-ok (check_groups ordered []) _ h' in
    let owned = check_owners-AreOwned ordered [] [] p in
    let made : record { specs = ordered; applicability = applicability } ≡ m = cc in
    subst IsOwned made (record {
      ids_once = owned.ids_once;
      signals_once = owned.signals_once;
      found = find_spec-each ordered owned.ids_once;
      aligned = (check_groups-Grouped ordered [] q).align;
    })
