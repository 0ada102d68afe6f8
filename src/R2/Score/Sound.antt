-- ===== src/R2/Score/Sound.antt =====
-- What holds of every result of `score_r2`: its range, its status, its gates.
use mathlib.Core.Path.{subst}
use scovant_core.Prelude.{
  ℕ, String, ◌≡◌, refl, ◌≤◌, ◌↔◌, inl, inr, Bool, true, not, ◌||◌, Option, none, some, List, [],
  All, arith, if◌then◌else◌, is_some, is_empty, Bool-cases, Result, ok, >>=-eq-ok, lower, strip,
}
use scovant_core.Prelude.Float.{Float, IsMonotone, ◌≼◌, max_F, min_F}
use scovant_core.R2.Outcome.{Outcome, R2Category, categories}
use scovant_core.R2.Policy.{ScoringPolicy}
use scovant_core.R2.Manifest.{Manifest}
use scovant_core.R2.Score.Rows.{ScoreError, index_outcomes, build_rows, Row}
use scovant_core.R2.Score.Gates.{GateHit, fired_gates}
use scovant_core.R2.Score.Merge.{merge_rows}
use scovant_core.R2.Score.Totals.{Totals, totals_from, no_totals}
use scovant_core.R2.Score.Rating.{
  R2Result, Rated, Status, raw_scores, raw_coverage, mean_of, half_up, apply_caps, rate, capped_by,
  blocks_badge, weights_of, unrated, degraded_rating, full_rating, score_rows, score_r2,
}
use scovant_core.R2.Score.Caps.{apply_caps-le, settled_all, Covered-refl}

abbrev pub Within : ℕ → Option ℕ → Type 0
Within top none = Unit
Within top (some n) = n ≤ top

-- no gate of the list lowers the rating any further
abbrev pub IsCapped : List GateHit → Option ℕ → Type 0
IsCapped hits none = Unit
IsCapped hits (some n) = All (λ h. capped_by h n ≡ n) hits

module _ {F : Type 0} ⦃fl : Float F⦄ where
  abbrev pub InRange : Option F → Type 0
  InRange none = Unit
  InRange (some x) = (fl.of_ℕ 0 ≼ x) × (x ≼ fl.of_ℕ 100)

  abbrev pub rated_part : R2Result F → Rated F
  rated_part r = record {
    rating_raw = r.rating_raw;
    rating = r.rating;
    grade = r.grade;
    badge = r.badge;
    status = r.status;
    confidence = r.confidence;
  }

  pub record IsSound (hits : List GateHit) (a : Rated F) : Type 0 where
    pub raw_in_range : InRange a.rating_raw
    pub at_most_100 : Within 100 a.rating
    pub capped : IsCapped hits a.rating
    pub unrated_iff : (a.status ≡ Status.insufficient_evidence) ↔ (a.rating ≡ none)
    pub raw_iff : (a.rating ≡ none) ↔ (a.rating_raw ≡ none)
    pub grade_needs_ok : is_some a.grade ≡ true → a.status ≡ Status.ok_status
    pub badge_needs_ok : is_some a.badge ≡ true → a.status ≡ Status.ok_status
    pub badge_blocked : blocks_badge hits ≡ true → a.badge ≡ none

  module _ (laws : IsMonotone F) (policy : ScoringPolicy F) where
    max_F-nonneg : (x : F) → fl.of_ℕ 0 ≼ max_F (fl.of_ℕ 0) x
    max_F-nonneg x = elim (Bool-cases (fl.lt (fl.of_ℕ 0) x)) [
      | inl e ↦ rw e (laws.le_of_lt _ x e)
      | inr e ↦ rw e (laws.le_refl _)
    ]

    min_F-range :
        (x : F)
        → fl.of_ℕ 0 ≼ x
        → (fl.of_ℕ 0 ≼ min_F (fl.of_ℕ 100) x) × (min_F (fl.of_ℕ 100) x ≼ fl.of_ℕ 100)
    min_F-range x h = elim (Bool-cases (fl.lt x (fl.of_ℕ 100))) [
      | inl e ↦ rw e (h, laws.le_of_lt x _ e)
      | inr e ↦ rw e (laws.of_ℕ_mono 0 100 (omega arith), laws.le_refl _)
    ]

    mean_of-range :
        (xs : List (R2Category × F))
        → (fl.of_ℕ 0 ≼ mean_of policy xs) × (mean_of policy xs ≼ fl.of_ℕ 100)
    unfolding mean_of
    mean_of-range xs = min_F-range _ (max_F-nonneg _)

    half_up-le : (x : F) → x ≼ fl.of_ℕ 100 → half_up policy x ≤ 100
    unfolding half_up
    half_up-le x h =
        rw (laws.floor_half 100 (omega arith)) at
          (laws.floor_mono _ _ (laws.add_mono x _ (fl.lit 5 1) (fl.lit 5 1) h (laws.le_refl _)))

    unrated-IsSound : (hits : List GateHit) → IsSound hits (unrated policy)
    unrated-IsSound hits = record {
      raw_in_range = tt;
      at_most_100 = tt;
      capped = tt;
      unrated_iff = (λ _. refl, λ _. refl);
      raw_iff = (λ _. refl, λ _. refl);
      grade_needs_ok = λ h. cc;
      badge_needs_ok = λ h. cc;
      badge_blocked = λ _. refl;
    }

    module _ (hits : List GateHit) (x : F) (n : ℕ) (raw : InRange (some x)) (top : n ≤ 100)
        (capped : IsCapped hits (some n)) where
      degraded-IsSound : IsSound hits (degraded_rating policy x n)
      degraded-IsSound = record {
        raw_in_range = raw;
        at_most_100 = top;
        capped = capped;
        unrated_iff = (λ h. cc, λ h. cc);
        raw_iff = (λ h. cc, λ h. cc);
        grade_needs_ok = λ h. cc;
        badge_needs_ok = λ h. cc;
        badge_blocked = λ _. refl;
      }

      full-IsSound : IsSound hits (full_rating policy hits x n)
      full-IsSound = record {
        raw_in_range = raw;
        at_most_100 = top;
        capped = capped;
        unrated_iff = (λ h. cc, λ h. cc);
        raw_iff = (λ h. cc, λ h. cc);
        grade_needs_ok = λ _. refl;
        badge_needs_ok = λ _. refl;
        badge_blocked = λ h. rw h;
      }

    settled : {x a : Rated F} → ◌≡◌ {A = Result ScoreError (Rated F)} (ok x) (ok a) → x ≡ a
    settled e = cc

    whole :
        {x r : R2Result F}
        → ◌≡◌ {A = Result ScoreError (R2Result F)} (ok x) (ok r)
        → IsSound x.gates_applied (rated_part x)
        → IsSound r.gates_applied (rated_part r)
    whole {x} {r} e h =
        let here : x ≡ r = cc in subst (λ y. IsSound y.gates_applied (rated_part y)) here h

    carried : (hits : List GateHit) {x a : Rated F} → x ≡ a → IsSound hits x → IsSound hits a
    carried hits e h = subst (IsSound hits) e h

    rated-IsSound :
        (hits : List GateHit) (shaky : Bool) (xs : List (R2Category × F)) {a : Rated F}
        → (let n = apply_caps (half_up policy (mean_of policy xs)) hits in
            if shaky
            then degraded_rating policy (mean_of policy xs) n
            else full_rating policy hits (mean_of policy xs) n)
          ≡ a
        → IsSound hits a
    rated-IsSound hits shaky xs e =
        let x = mean_of policy xs in
        let n = apply_caps (half_up policy x) hits in
        let raw = mean_of-range xs in
        let top : n ≤ 100 =
          omega (arith, apply_caps-le (half_up policy x) hits, half_up-le x raw.1) in
        let capped = settled_all (half_up policy x) hits hits (Covered-refl hits) in
        elim (Bool-cases shaky) [
          | inl s ↦ carried hits (rw s at e) (degraded-IsSound hits x n raw top capped)
          | inr s ↦ carried hits (rw s at e) (full-IsSound hits x n raw top capped)
        ]

    rate-IsSound :
        (hits : List GateHit) (t : Totals F) (xs : List (R2Category × F)) {a : Rated F}
        → rate policy hits t xs ≡ ok a
        → IsSound hits a
    unfolding rate
    rate-IsSound hits t xs {a} p =
        let few = fl.lt (raw_coverage policy t) policy.evidence_min_coverage || is_empty xs in
        let shaky = fl.lt (raw_coverage policy t) policy.canonical_min_coverage || t.any_error in
        let zero = not (fl.nonzero (fl.sum (weights_of policy xs))) in
        elim (Bool-cases few) [
          | inl e ↦
              let q : ◌≡◌ {A = Result ScoreError (Rated F)} (ok (unrated policy)) (ok a) =
                rw e at p in
              let here : unrated policy ≡ a = cc in carried hits here (unrated-IsSound hits)
          | inr e ↦ elim (Bool-cases zero) [
            | inl z ↦ let q = rw (e, z) at p in absurd cc
            | inr z ↦ let q = rw (e, z) at p in rated-IsSound hits shaky xs (settled q)
          ]
        ]

    score_rows-IsSound :
        (profile : String) (rows : List Row) (unknown : List String) {r : R2Result F}
        → score_rows policy profile rows unknown ≡ ok r
        → IsSound r.gates_applied (rated_part r)
    unfolding score_rows
    score_rows-IsSound profile rows unknown {r} p =
        let hits = fired_gates policy [] rows in
        let t = totals_from policy (merge_rows policy rows) no_totals rows in
        let xs = raw_scores policy profile t categories in
        let (a, pa, p') = >>=-eq-ok (rate policy hits t xs) _ p in
        whole p' (rate-IsSound hits t xs pa)

    pub score_r2-IsSound :
        (profile : String) (manifest : Manifest) (os : List Outcome) {r : R2Result F}
        → score_r2 policy profile manifest os ≡ ok r
        → IsSound r.gates_applied (rated_part r)
    unfolding score_r2
    score_r2-IsSound profile manifest os p =
        let name = lower (strip profile) in
        let (d, _, p') = >>=-eq-ok (index_outcomes manifest os []) _ p in
        let (x, _, p'') = >>=-eq-ok (build_rows policy name d manifest.specs) _ p' in
        score_rows-IsSound name x.0 x.1 p''
