-- ===== src/R2/Score/Monotone/Totals.antt =====
-- The sums of two runs: equal weights, and no lower a numerator, when rows do better.
use scovant_core.Prelude.{
  ℕ, String, ◌≡◌, refl, sym, ◌∙◌, ap, ◌||◌, List, [], ◌∷◌, inl, inr, Both, Bool-cases, arith,
  str_eq, lookup, contains,
}
use scovant_core.Prelude.Float.{Float, IsMonotone, ◌≼◌}
use scovant_core.R2.Outcome.{R2Category, category_eq, is_measured, is_na}
use scovant_core.R2.Policy.{ScoringPolicy}
use scovant_core.R2.Manifest.{is_weighted}
use scovant_core.R2.Score.Rows.{Row}
use scovant_core.R2.Score.Merge.{Merged, weight}
use scovant_core.R2.Score.Totals.{
  Totals, value_or, bump, effect_value, row_weight, add_measured, add_applicable, add_row,
  totals_from, no_totals,
}
use scovant_core.R2.Score.Monotone.Defs.{RowLe, flags_of, Below, ValueLe, MergedLe}
use scovant_core.R2.Score.Monotone.Merge.{value-Below}

module _ {F : Type 0} ⦃fl : Float F⦄ where
  pub record TotalsLe (t u : Totals F) : Type 0 where
    pub applicable : t.applicable_w ≡ u.applicable_w
    pub measured : t.measured_w ≡ u.measured_w
    pub error : t.any_error ≡ u.any_error
    pub den : (c : R2Category) → t.cat_den c ≡ u.cat_den c
    pub den_nonneg : (c : R2Category) → fl.of_ℕ 0 ≼ t.cat_den c
    pub num : (c : R2Category) → Below (t.cat_num c) (u.cat_num c)

  lookup-Below :
      (k l : String) (v w : F) (m n : List (String × F))
      → k ≡ l
      → Below v w
      → Both ValueLe m n
      → Below (value_or (lookup k m) v) (value_or (lookup l n) w)
  lookup-Below k l v w [] [] e b h = b
  lookup-Below k l v w [] (q ∷ n) e b h = absurd h
  lookup-Below k l v w (p ∷ m) [] e b h = absurd h
  lookup-Below k l v w ((i, x) ∷ m) ((j, y) ∷ n) e b h =
      let same : str_eq i k ≡ str_eq j l = cc (h.0.key, e) in
      elim (Bool-cases (str_eq i k)) [
        | inl t ↦ rw (t, (sym same ∙ t)) h.0.value
        | inr t ↦ rw (t, (sym same ∙ t)) (lookup-Below k l v w m n e b h.1)
      ]

  module _ (laws : IsMonotone F) where
    pub add-Below : (a b c d : F) → Below a b → Below c d → Below (fl.add a c) (fl.add b d)
    add-Below a b c d p q = (
      rw (← laws.zero-add (fl.of_ℕ 0)) (laws.add_mono (fl.of_ℕ 0) a (fl.of_ℕ 0) c p.0 q.0),
      laws.add_mono a b c d p.1 q.1,
    )

    pub mul-Below : (a b c d : F) → Below a b → Below c d → Below (fl.mul a c) (fl.mul b d)
    mul-Below a b c d p q = (
      rw (← laws.mul-zero (fl.of_ℕ 0)) (
          laws.mul_mono (fl.of_ℕ 0) a (fl.of_ℕ 0) c (laws.le_refl (fl.of_ℕ 0)) p.0
            (laws.le_refl (fl.of_ℕ 0)) q.0),
      laws.mul_mono a b c d p.0 p.1 q.0 q.1,
    )

    pub of_ℕ-Below : (n : ℕ) → Below (fl.of_ℕ n) (fl.of_ℕ n)
    of_ℕ-Below n = (laws.of_ℕ_mono 0 n (omega arith), laws.le_refl (fl.of_ℕ n))

    bump-Below :
        (c c' k : R2Category) (v w : F) (d e : R2Category → F)
        → c ≡ c'
        → Below v w
        → Below (d k) (e k)
        → Below (bump c v d k) (bump c' w e k)
    unfolding bump
    bump-Below c c' k v w d e q b h =
        let same : category_eq c k ≡ category_eq c' k = ap (λ x. category_eq x k) q in
        elim (Bool-cases (category_eq c k)) [
          | inl t ↦ rw (t, (sym same ∙ t)) (add-Below (d k) (e k) v w h b)
          | inr t ↦ rw (t, (sym same ∙ t)) h
        ]

    bump_alike :
        (c c' k : R2Category) (v w : F) (d e : R2Category → F)
        → c ≡ c'
        → v ≡ w
        → d k ≡ e k
        → bump c v d k ≡ bump c' w e k
    unfolding bump
    bump_alike c c' k v w d e p q h = cc

    weighted_alike :
        (r s : Row) → RowLe r s → is_weighted s.spec.score_effect ≡ is_weighted r.spec.score_effect
    weighted_alike r s h = cc (h.same_spec)

    module _ (policy : ScoringPolicy F) {m n : Merged F} (merged : MergedLe m n) where
      row_weight-Below :
          (r s : Row) → RowLe r s → Below (row_weight policy m r) (row_weight policy n s)
      row_weight-Below r s h = rw (← h.same_spec) (of_ℕ-Below (weight policy r.spec))

      effect_value-Below :
          (r s : Row) → RowLe r s → Below (effect_value policy m r) (effect_value policy n s)
      unfolding effect_value
      effect_value-Below r s h =
          lookup-Below _ _ _ _ m.values n.values (ap (λ x. x.rule_id) h.same_spec)
            (value-Below laws r s h) merged.values

      add_applicable-TotalsLe :
          (r s : Row) (t u : Totals F)
          → RowLe r s
          → TotalsLe t u
          → TotalsLe (add_applicable policy m r t) (add_applicable policy n s u)
      unfolding add_applicable
      add_applicable-TotalsLe r s t u h k = record {
        applicable = cc (h.same_spec, k.applicable);
        measured = k.measured;
        error = cc (k.error, (flags_of _ _ h.outcome.state).error);
        den = k.den;
        den_nonneg = k.den_nonneg;
        num = k.num;
      }

      add_measured-TotalsLe :
          (r s : Row) (t u : Totals F)
          → RowLe r s
          → TotalsLe t u
          → TotalsLe (add_measured policy m r t) (add_measured policy n s u)
      unfolding add_measured
      add_measured-TotalsLe r s t u h k = elim (Bool-cases (is_weighted r.spec.score_effect)) [
        | inl e ↦
            rw (e, (weighted_alike r s h ∙ e))
              (record {
                applicable = k.applicable;
                measured = cc (h.same_spec, k.measured);
                error = k.error;
                den = λ c.
                    bump_alike r.spec.category s.spec.category c _ _ t.cat_den u.cat_den
                      (ap (λ x. x.category) h.same_spec) (cc (h.same_spec)) (k.den c);
                den_nonneg = λ c.
                    (bump-Below r.spec.category r.spec.category c _ _ t.cat_den t.cat_den refl
                      (of_ℕ-Below _) (k.den_nonneg c, laws.le_refl (t.cat_den c))).0;
                num = λ c.
                    bump-Below r.spec.category s.spec.category c _ _ t.cat_num u.cat_num
                      (ap (λ x. x.category) h.same_spec)
                      (mul-Below _ _ _ _ (row_weight-Below r s h) (effect_value-Below r s h))
                      (k.num c);
              })
        | inr e ↦
            rw (e, (weighted_alike r s h ∙ e))
              (record {
                applicable = k.applicable;
                measured = cc (h.same_spec, k.measured);
                error = k.error;
                den = k.den;
                den_nonneg = k.den_nonneg;
                num = k.num;
              })
      ]

      add_row-TotalsLe :
          (r s : Row) (t u : Totals F)
          → RowLe r s
          → TotalsLe t u
          → TotalsLe (add_row policy m r t) (add_row policy n s u)
      unfolding add_row
      add_row-TotalsLe r s t u h k =
          let flags = flags_of _ _ h.outcome.state in
          let skip : (is_na r.outcome.state || contains m.deduped r.spec.rule_id)
              ≡ (is_na s.outcome.state || contains n.deduped s.spec.rule_id) =
            cc (flags.na, merged.deduped, h.same_spec) in
          elim (Bool-cases (is_na r.outcome.state || contains m.deduped r.spec.rule_id)) [
            | inl e ↦ rw (e, (sym skip ∙ e)) k
            | inr e ↦ elim (Bool-cases (is_measured r.outcome.state)) [
              | inl g ↦
                  rw (e, (sym skip ∙ e), g, (sym flags.measured ∙ g))
                    (add_measured-TotalsLe r s _ _ h (add_applicable-TotalsLe r s t u h k))
              | inr g ↦
                  rw (e, (sym skip ∙ e), g, (sym flags.measured ∙ g))
                    (add_applicable-TotalsLe r s t u h k)
            ]
          ]

      totals_from-TotalsLe :
          (t u : Totals F) (rows rows' : List Row)
          → TotalsLe t u
          → Both RowLe rows rows'
          → TotalsLe (totals_from policy m t rows) (totals_from policy n u rows')
      unfolding totals_from
      totals_from-TotalsLe t u [] [] k h = k
      totals_from-TotalsLe t u [] (s ∷ ss) k h = absurd h
      totals_from-TotalsLe t u (r ∷ rs) [] k h = absurd h
      totals_from-TotalsLe t u (r ∷ rs) (s ∷ ss) k h =
          totals_from-TotalsLe (add_row policy m r t) (add_row policy n s u) rs ss
            (add_row-TotalsLe r s t u h.0 k) h.1

      pub totals-TotalsLe :
          (rows rows' : List Row)
          → Both RowLe rows rows'
          → TotalsLe (totals_from policy m no_totals rows) (totals_from policy n no_totals rows')
      totals-TotalsLe rows rows' h =
          totals_from-TotalsLe no_totals no_totals rows rows'
            (record {
              applicable = refl;
              measured = refl;
              error = refl;
              den = λ c. refl;
              den_nonneg = λ c. laws.le_refl (fl.of_ℕ 0);
              num = λ c. of_ℕ-Below 0;
            })
            h
