-- ===== src/R2/Score/Totals.antt =====
-- r2/score.py, the fourth stage: the sums of weights over the counted rows.
use scovant_core.Prelude.{
  Bool, false, ◌||◌, Option, none, some, List, [], ◌∷◌, if◌then◌else◌, contains, lookup,
}
use scovant_core.Prelude.Float.{Float, zero_F}
use scovant_core.R2.Outcome.{R2Category, category_eq, is_measured, is_na, is_error}
use scovant_core.R2.Policy.{ScoringPolicy}
use scovant_core.R2.Manifest.{is_weighted}
use scovant_core.R2.Score.Rows.{Row}
use scovant_core.R2.Score.Merge.{Merged, value, weight}

pub record Totals (F : Type 0) : Type 0 where
  pub applicable_w : F
  pub measured_w : F
  pub any_error : Bool
  pub cat_num : R2Category → F
  pub cat_den : R2Category → F
  pub cat_app : R2Category → F

-- `d.get(k, v)`
abbrev pub value_or {ℓ} : {A : Type ℓ} → Option A → A → A
value_or none v = v
value_or (some w) v = w

module _ {F : Type 0} ⦃fl : Float F⦄ where
  -- `d[c] += w`
  unfoldable pub bump : R2Category → F → (R2Category → F) → R2Category → F
  bump c w d k = if category_eq c k then fl.add (d k) w else d k

  abbrev pub no_totals : Totals F
  no_totals = record {
    applicable_w = zero_F;
    measured_w = zero_F;
    any_error = false;
    cat_num = λ c. zero_F;
    cat_den = λ c. zero_F;
    cat_app = λ c. zero_F;
  }

  module _ (policy : ScoringPolicy F) (merged : Merged F) where
    -- `merged_value.get(spec.rule_id, _value(spec, o))`
    unfoldable pub effect_value : Row → F
    effect_value r = value_or (lookup r.spec.rule_id merged.values) (value r.spec r.outcome)

    abbrev pub row_weight : Row → F
    row_weight r = fl.of_ℕ (weight policy r.spec)

    -- the part of the loop behind the test for a measured state
    unfoldable pub add_measured : Row → Totals F → Totals F
    unfolding effect_value bump
    add_measured r t =
        let w = row_weight r in
        let t' : Totals F = record t { measured_w = fl.add t.measured_w w } in
        if is_weighted r.spec.score_effect
        then record t' {
          cat_num = bump r.spec.category (fl.mul w (effect_value r)) t.cat_num;
          cat_den = bump r.spec.category w t.cat_den;
        }
        else t'

    unfoldable pub add_applicable : Row → Totals F → Totals F
    unfolding bump
    add_applicable r t = record t {
      applicable_w = fl.add t.applicable_w (row_weight r);
      any_error = t.any_error || is_error r.outcome.state;
      cat_app = bump r.spec.category (row_weight r) t.cat_app;
    }

    -- one turn of the loop
    unfoldable pub add_row : Row → Totals F → Totals F
    unfolding add_measured add_applicable
    add_row r t =
        if is_na r.outcome.state || contains merged.deduped r.spec.rule_id
        then t
        else if is_measured r.outcome.state
        then add_measured r (add_applicable r t)
        else add_applicable r t

    unfoldable pub totals_from : Totals F → List Row → Totals F
    unfolding add_row
    totals_from t [] = t
    totals_from t (r ∷ rows) = totals_from (add_row r t) rows
