-- ===== src/R2/Score/Index.antt =====
-- The dictionary of outcomes that `score_r2` builds: which lists it takes, and what the rest of the
-- code reads of it.
use scovant_core.Prelude.{
  String, ◌≡◌, refl, sym, ◌∙◌, ap, ◌↔◌, inl, inr, Bool, true, false, Option, none, some, List, [],
  ◌∷◌, All, if◌then◌else◌, is_none, is_some, Bool-cases, Option-cases, str_eq, eq_iff, eq_refl,
  lookup, insert, lookup-insert, ok, lower, strip,
}
use scovant_core.Prelude.Float.{Float}
use scovant_core.R2.Outcome.{Outcome}
use scovant_core.R2.Policy.{ScoringPolicy}
use scovant_core.R2.Manifest
use scovant_core.R2.Manifest.{Manifest, RuleSpec}
use scovant_core.R2.Score.Rows.{index_outcomes, is_counted, build_rows}
use scovant_core.R2.Score.Rating.{score_r2}

-- the first outcome of a rule
abbrev pub outcome_for : String → List Outcome → Option Outcome
outcome_for id [] = none
outcome_for id (o ∷ os) = if str_eq o.rule_id id then some o else outcome_for id os

abbrev pub IsListed : Manifest → Outcome → Type 0
IsListed m o = is_some (Manifest.get m o.rule_id) ≡ true

-- no two outcomes of one rule
abbrev pub IsDistinct : List Outcome → Type 0
IsDistinct [] = Unit
IsDistinct (o ∷ os) = All (λ p. str_eq o.rule_id p.rule_id ≡ false) os × IsDistinct os

abbrev pub Indexed : Manifest → List Outcome → List (String × Outcome) → Type 0
Indexed m os d = (e : List (String × Outcome)) × (index_outcomes m os d ≡ ok e)

if-some :
    (b : Bool) (o : Outcome) (f : Option Outcome)
    → is_some f ≡ true
    → is_some (if b then some o else f) ≡ true
if-some true o f h = refl
if-some false o f h = h

some-none : (f : Option RuleSpec) → is_some f ≡ true → is_none f ≡ false
some-none none h = absurd cc
some-none (some s) h = refl

record Step (m : Manifest) (o : Outcome) (os : List Outcome) (d e : List (String × Outcome))
    : Type 0 where
  pub listed : IsListed m o
  pub fresh : lookup o.rule_id d ≡ none
  pub rest : index_outcomes m os (insert o.rule_id o d) ≡ ok e

index_outcomes-Step :
    (m : Manifest) (o : Outcome) (os : List Outcome) (d : List (String × Outcome))
    {e : List (String × Outcome)}
    → index_outcomes m (o ∷ os) d ≡ ok e
    → Step m o os d e
unfolding index_outcomes
index_outcomes-Step m o os d p = elim (Option-cases (Manifest.get m o.rule_id)) [
  | inl z ↦ let q = rw z at p in absurd cc
  | inr (s, z) ↦ elim (Option-cases (lookup o.rule_id d)) [
    | inl f ↦ record { listed = rw z refl; fresh = f; rest = rw (z, f) at p }
    | inr (t, f) ↦ let q = rw (z, f) at p in absurd cc
  ]
]

abbrev or_else : Option Outcome → Option Outcome → Option Outcome
or_else none o = o
or_else (some a) o = some a

or_else-none : (o : Option Outcome) → or_else o none ≡ o
or_else-none none = refl
or_else-none (some a) = refl

pub index_outcomes-lookup :
    (m : Manifest) (os : List Outcome) (d : List (String × Outcome)) {e : List (String × Outcome)}
    (id : String)
    → index_outcomes m os d ≡ ok e
    → lookup id e ≡ or_else (lookup id d) (outcome_for id os)
unfolding index_outcomes
index_outcomes-lookup m [] d {e} id p =
    let here : d ≡ e = cc in ap (lookup id) (sym here) ∙ sym (or_else-none (lookup id d))
index_outcomes-lookup m (o ∷ os) d id p =
    let s = index_outcomes-Step m o os d p in
    let rest = index_outcomes-lookup m os (insert o.rule_id o d) id s.rest in
    let found = lookup-insert o.rule_id id o d in
    elim (Bool-cases (str_eq o.rule_id id)) [
      | inl q ↦
          let same : o.rule_id ≡ id = (eq_iff o.rule_id id).0 q in
          let none_yet : lookup id d ≡ none = ap (λ k. lookup k d) (sym same) ∙ s.fresh in
          rw (rest, found, q, none_yet) refl
      | inr q ↦ rw (rest, found, q) refl
    ]

index_outcomes-fresh :
    (m : Manifest) (os : List Outcome) (d : List (String × Outcome)) {e : List (String × Outcome)}
    (id : String)
    → is_some (lookup id d) ≡ true
    → index_outcomes m os d ≡ ok e
    → All (λ p. str_eq id p.rule_id ≡ false) os
index_outcomes-fresh m [] d id h p = tt
index_outcomes-fresh m (o ∷ os) d id h p =
    let s = index_outcomes-Step m o os d p in
    let found = lookup-insert o.rule_id id o d in
    elim (Bool-cases (str_eq id o.rule_id)) [
      | inl q ↦
          let same : id ≡ o.rule_id = (eq_iff id o.rule_id).0 q in
          let none_yet : lookup id d ≡ none = ap (λ k. lookup k d) same ∙ s.fresh in
          let h' = rw none_yet at h in absurd cc
      | inr q ↦ (
        q,
        index_outcomes-fresh m os (insert o.rule_id o d) id
            (rw found (if-some (str_eq o.rule_id id) o (lookup id d) h)) s.rest,
      )
    ]

index_outcomes-IsDistinct :
    (m : Manifest) (os : List Outcome) (d : List (String × Outcome)) {e : List (String × Outcome)}
    → index_outcomes m os d ≡ ok e
    → All (IsListed m) os × IsDistinct os
index_outcomes-IsDistinct m [] d p = (tt, tt)
index_outcomes-IsDistinct m (o ∷ os) d p =
    let s = index_outcomes-Step m o os d p in
    let rest = index_outcomes-IsDistinct m os (insert o.rule_id o d) s.rest in
    let found : is_some (lookup o.rule_id (insert o.rule_id o d)) ≡ true =
      rw (lookup-insert o.rule_id o.rule_id o d, eq_refl o.rule_id) refl in
    (
      (s.listed, rest.0),
      (index_outcomes-fresh m os (insert o.rule_id o d) o.rule_id found s.rest, rest.1),
    )

fresh-insert :
    (id : String) (o : Outcome) (os : List Outcome) (d : List (String × Outcome))
    → All (λ p. str_eq id p.rule_id ≡ false) os
    → All (λ p. lookup p.rule_id d ≡ none) os
    → All (λ p. lookup p.rule_id (insert id o d) ≡ none) os
fresh-insert id o [] d h k = tt
fresh-insert id o (p ∷ os) d h k =
    (rw (lookup-insert id p.rule_id o d, h.0) k.0, fresh-insert id o os d h.1 k.1)

index_outcomes-Indexed :
    (m : Manifest) (os : List Outcome) (d : List (String × Outcome))
    → All (IsListed m) os
    → IsDistinct os
    → All (λ p. lookup p.rule_id d ≡ none) os
    → Indexed m os d
unfolding index_outcomes
index_outcomes-Indexed m [] d h k f = (d, refl)
index_outcomes-Indexed m (o ∷ os) d h k f =
    let listed : is_none (Manifest.get m o.rule_id) ≡ false = some-none _ h.0 in
    let (e, q) =
      index_outcomes-Indexed m os (insert o.rule_id o d) h.1 k.1
        (fresh-insert o.rule_id o os d k.0 f.1) in
    (e, rw (listed, f.0) q)

all_new : (os : List Outcome) → All (λ p. lookup {V = Outcome} p.rule_id [] ≡ none) os
all_new [] = tt
all_new (o ∷ os) = (refl, all_new os)

-- The loop over the outcomes takes a list exactly if every outcome's rule is in the manifest and
-- no two outcomes are of one rule.
pub index_outcomes_accepts :
    (m : Manifest) (os : List Outcome) → Indexed m os [] ↔ (All (IsListed m) os × IsDistinct os)
index_outcomes_accepts m os = (
  λ i. index_outcomes-IsDistinct m os [] i.1,
  λ h. index_outcomes-Indexed m os [] h.0 h.1 (all_new os),
)

module _ {F : Type 0} (policy : ScoringPolicy F) (profile : String) where
  build_rows_agree :
      (d e : List (String × Outcome)) (specs : List RuleSpec)
      → All
          (λ s. is_counted policy profile s ≡ true → lookup s.rule_id d ≡ lookup s.rule_id e)
          specs
      → build_rows policy profile d specs ≡ build_rows policy profile e specs
  unfolding build_rows
  build_rows_agree d e [] h = refl
  build_rows_agree d e (s ∷ specs) h = elim (Bool-cases (is_counted policy profile s)) [
    | inl q ↦ rw (q, h.0 q, build_rows_agree d e specs h.1) refl
    | inr q ↦ rw (q, build_rows_agree d e specs h.1) refl
  ]

module _ {F : Type 0} (policy : ScoringPolicy F) (name : String) (os os' : List Outcome) where
  -- the two lists give the same outcome to every rule that counts
  abbrev pub Agree : List RuleSpec → Type 0
  Agree specs =
      All
        (λ s.
          is_counted policy name s ≡ true → outcome_for s.rule_id os ≡ outcome_for s.rule_id os')
        specs

  Agree-lookup :
      (m : Manifest) (d e : List (String × Outcome)) (specs : List RuleSpec)
      → index_outcomes m os [] ≡ ok d
      → index_outcomes m os' [] ≡ ok e
      → Agree specs
      → All (λ s. is_counted policy name s ≡ true → lookup s.rule_id d ≡ lookup s.rule_id e) specs
  Agree-lookup m d e [] p q h = tt
  Agree-lookup m d e (s ∷ specs) p q h = (
    λ c.
        index_outcomes-lookup m os [] s.rule_id p
        ∙ h.0 c
        ∙ sym (index_outcomes-lookup m os' [] s.rule_id q),
    Agree-lookup m d e specs p q h.1,
  )

module _ {F : Type 0} ⦃fl : Float F⦄ (policy : ScoringPolicy F) where
  -- The rating reads the outcomes as a map over the rules that count: two lists that `score_r2`
  -- takes, and that have the same outcome for every such rule, give one result, so neither their
  -- order nor an outcome of a diagnostic or experimental rule matters.
  pub score_r2-Agree :
      (profile : String) (manifest : Manifest) (os os' : List Outcome)
      → Indexed manifest os []
      → Indexed manifest os' []
      → Agree policy (lower (strip profile)) os os' manifest.specs
      → score_r2 policy profile manifest os ≡ score_r2 policy profile manifest os'
  unfolding score_r2
  score_r2-Agree profile manifest os os' (d, p) (e, q) h =
      let name = lower (strip profile) in
      let same =
        build_rows_agree policy name d e manifest.specs
          (Agree-lookup policy name os os' manifest d e _ p q h) in
      rw (p, q, same) refl
