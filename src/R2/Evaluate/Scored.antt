-- ===== src/R2/Evaluate/Scored.antt =====
-- The score takes the outcomes of Technical Readiness.
use mathlib.Core.Path.{subst}
use scovant_core.Prelude.{
  lower, strip, String, ◌≡◌, refl, sym, ap, ◌∙◌, inl, inr, Bool, true, Option, none, some, List, [],
  ◌∷◌, All, All_map, Bool-cases, str_eq, eq_iff, lookup, ok, returned, arith,
}
use scovant_core.Prelude.Float.{Float, IsPositive, zero_F}
use scovant_core.R2.Outcome.{Outcome, R2Category, categories}
use scovant_core.R2.Policy.{ScoringPolicy, public_policy}
use scovant_core.R2.Manifest
use scovant_core.R2.Manifest.{Manifest, RuleSpec, rule_id_matches}
use scovant_core.R2.Score.Rows.{Row, is_counted, settle, build_rows}
use scovant_core.R2.Score.Totals.{Totals, no_totals, totals_from}
use scovant_core.R2.Score.Merge.{merge_rows}
use scovant_core.R2.Score.Gates.{GateHit, fired_gates}
use scovant_core.R2.Score.Rating.{
  R2Result, Rated, rate, weights_of, raw_scores, score_rows, score_r2, raw_coverage,
}
use scovant_core.R2.Score.Index.{
  IsDistinct, outcome_for, IsListed, index_outcomes_accepts, index_outcomes-lookup,
}
use scovant_core.R2.Evaluate.{rated}
use scovant_core.R2.Evaluate.Checked.{Passes}
use scovant_core.R2.Evaluate.Outcomes.{IsTaken}

outcome_for-IsTaken :
    (m : Manifest) (os : List Outcome) (id : String) (o : Outcome)
    → All (IsTaken m) os
    → outcome_for id os ≡ some o
    → (s : RuleSpec) → Manifest.get m id ≡ some s
    → Passes s o
outcome_for-IsTaken m [] id o h f s g = absurd cc
outcome_for-IsTaken m (p ∷ os) id o h f s g = elim (Bool-cases (str_eq p.rule_id id)) [
  | inl e ↦
      let both : some p ≡ some o = rw e at f in
      let same : p ≡ o = cc in
      let code : p.rule_id ≡ id = (eq_iff p.rule_id id).0 e in
      subst (λ x. Passes s x) same (h.0.passes s (ap (Manifest.get m) code ∙ g))
  | inr e ↦ outcome_for-IsTaken m os id o h.1 (rw e at f) s g
]

-- each of the entries finds an outcome that passes, or none
abbrev Passing : List (String × Outcome) → RuleSpec → Type 0
Passing d s = (o : Outcome) → lookup s.rule_id d ≡ some o → Passes s o

module _ {F : Type 0} (policy : ScoringPolicy F) (profile : String) where
  settle-ok :
      (s : RuleSpec) (found : Option Outcome)
      → ((o : Outcome) → found ≡ some o → Passes s o)
      → (o : Outcome) × (settle policy profile s found ≡ ok o)
  unfolding settle
  settle-ok s none h = returned (settle policy profile s none) refl
  settle-ok s (some o) h = returned (settle policy profile s (some o)) (rw (h o refl) refl)

  build_rows-ok :
      (d : List (String × Outcome)) (specs : List RuleSpec)
      → All (Passing d) specs
      → (r : List Row × List String) × (build_rows policy profile d specs ≡ ok r)
  unfolding build_rows
  build_rows-ok d [] h = (_, refl)
  build_rows-ok d (s ∷ specs) h =
      let (o, p) = settle-ok s (lookup s.rule_id d) h.0 in
      let (r, q) = build_rows-ok d specs h.1 in
      elim (Bool-cases (is_counted policy profile s)) [
        | inl c ↦ returned (build_rows policy profile d (s ∷ specs)) (rw (c, p, q) refl)
        | inr c ↦ (r, rw (c, q) refl)
      ]

module _ {F : Type 0} ⦃fl : Float F⦄ (positive : IsPositive F) where
  public_weight_positive :
      (c : R2Category) → fl.lt zero_F ((public_policy {F = F}).category_weights c) ≡ true
  public_weight_positive R2Category.discoverability = positive.lit_positive 17 (omega arith)
  public_weight_positive R2Category.structured = positive.lit_positive 18 (omega arith)
  public_weight_positive R2Category.consistency = positive.lit_positive 15 (omega arith)
  public_weight_positive R2Category.actionability = positive.lit_positive 12 (omega arith)
  public_weight_positive R2Category.trust = positive.lit_positive 8 (omega arith)
  public_weight_positive R2Category.ucp = positive.lit_positive 12 (omega arith)
  public_weight_positive R2Category.citability = positive.lit_positive 18 (omega arith)

  weights_positive :
      (scores : List (R2Category × F))
      → All (λ w. fl.lt zero_F w ≡ true) (weights_of public_policy scores)
  weights_positive [] = tt
  weights_positive (s ∷ scores) = (public_weight_positive s.0, weights_positive scores)

  abbrev is_sparse : Totals F → Bool
  is_sparse t = fl.lt (raw_coverage public_policy t) (public_policy {F = F}).evidence_min_coverage

  rate-ok :
      (hits : List GateHit) (t : Totals F) (scores : List (R2Category × F))
      → (r : Rated F) × (rate public_policy hits t scores ≡ ok r)
  unfolding rate
  rate-ok hits t [] = elim (Bool-cases (is_sparse t)) [
    | inl e ↦ returned (rate public_policy hits t []) (rw e refl)
    | inr e ↦ returned (rate public_policy hits t []) (rw e refl)
  ]
  rate-ok hits t (s ∷ scores) =
      let weights = weights_positive (s ∷ scores) in
      let divides = positive.sum_nonzero _ _ weights.0 weights.1 in
      elim (Bool-cases (is_sparse t)) [
        | inl e ↦ returned (rate public_policy hits t (s ∷ scores)) (rw e refl)
        | inr e ↦ returned (rate public_policy hits t (s ∷ scores)) (rw (e, divides) refl)
      ]

  score_rows-ok :
      (profile : String) (rows : List Row) (unknown : List String)
      → (r : R2Result F) × (score_rows public_policy profile rows unknown ≡ ok r)
  unfolding score_rows
  score_rows-ok profile rows unknown =
      let hits = fired_gates (public_policy {F = F}) [] rows in
      let merged = merge_rows (public_policy {F = F}) rows in
      let t : Totals F = totals_from (public_policy {F = F}) merged no_totals rows in
      let (rated, q) = rate-ok hits t (raw_scores (public_policy {F = F}) profile t categories) in
      returned (score_rows (public_policy {F = F}) profile rows unknown) (rw q refl)

  pub score_r2-ok :
      (given : String) (m : Manifest) (os : List Outcome)
      → All (λ s. Manifest.get m s.rule_id ≡ some s) m.specs
      → All (IsTaken m) os × IsDistinct os
      → (r : R2Result F) × (score_r2 public_policy given m os ≡ ok r)
  unfolding score_r2
  score_r2-ok given m os each taken =
      let profile = lower (strip given) in
      let listed = All_map (IsTaken m) (IsListed m) (λ o t. t.in_manifest) os taken.0 in
      let (d, indexed) = (index_outcomes_accepts m os).1 (listed, taken.1) in
      let passing =
        All_map _ (Passing d)
          (λ s g o found.
            outcome_for-IsTaken m os s.rule_id o taken.0
              (sym (index_outcomes-lookup m os [] s.rule_id indexed) ∙ found) s g)
          m.specs each in
      let (rows, built) = build_rows-ok {F = F} public_policy profile d m.specs passing in
      let (r, scored) = score_rows-ok profile rows.0 rows.1 in (r, rw (indexed, built, scored) refl)
