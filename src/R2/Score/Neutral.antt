-- ===== src/R2/Score/Neutral.antt =====
-- Rows whose state is not measured (NA, UNKNOWN, ERROR) count for no category score and no gate.
use mathlib.Core.Path.{subst}
use scovant_core.Prelude.{
  String, ◌≡◌, refl, sym, ◌∙◌, ap, inl, inr, Bool, true, false, ◌&&◌, ◌||◌, none, some, List, [],
  ◌∷◌, if◌then◌else◌, Bool-cases, keep, keep_yes, keep_no, contains,
}
use scovant_core.Prelude.Float.{Float}
use scovant_core.R2.Outcome.{R2Category, OutcomeState, is_measured, is_fail, is_na}
use scovant_core.R2.Policy.{ScoringPolicy, gate_for}
use scovant_core.R2.Manifest.{is_weighted, is_gate, is_merged}
use scovant_core.R2.Score.Rows.{Row}
use scovant_core.R2.Score.Gates.{GateHit, fires, add_hit, fired_gates}
use scovant_core.R2.Score.Merge.{
  Cluster, is_clustered, add_member, clusters_from, Merged, merge_rows,
}
use scovant_core.R2.Score.Totals.{
  Totals, no_totals, row_weight, bump, add_measured, add_applicable, add_row, totals_from,
}
use scovant_core.R2.Score.Rating.{raw_score, raw_scores}

abbrev pub counts : Row → Bool
counts r = is_measured r.outcome.state

-- the rows with a measured state
abbrev pub measured_rows : List Row → List Row
measured_rows rows = keep counts rows

fail_counts : (s : OutcomeState) → is_measured s ≡ false → is_fail s ≡ false
fail_counts OutcomeState.fail h = absurd cc
fail_counts OutcomeState.pass h = refl
fail_counts OutcomeState.warn h = refl
fail_counts OutcomeState.na h = refl
fail_counts OutcomeState.not_measured h = refl
fail_counts OutcomeState.blocked_by_policy h = refl
fail_counts OutcomeState.unknown h = refl
fail_counts OutcomeState.error h = refl

and_false : (b : Bool) → (b && false) ≡ false
and_false true = refl
and_false false = refl

and_false_rest : (b c : Bool) → (b && false && c) ≡ false
and_false_rest true c = refl
and_false_rest false c = refl

clusters_from-measured :
    (cs : List Cluster) (rows : List Row)
    → clusters_from cs rows ≡ clusters_from cs (measured_rows rows)
unfolding clusters_from
clusters_from-measured cs [] = refl
clusters_from-measured cs (r ∷ rows) = elim (Bool-cases (counts r)) [
  | inl e ↦
      let next = if is_clustered r then add_member r cs else cs in
      clusters_from-measured next rows ∙ ap (clusters_from cs) (sym (keep_yes counts r rows e))
  | inr e ↦
      let apart : is_clustered r ≡ false = rw e (and_false_rest (is_merged r.spec) _) in
      rw (apart, e) (clusters_from-measured cs rows)
]

module _ {F : Type 0} (policy : ScoringPolicy F) where
  fired_gates-measured :
      (hits : List GateHit) (rows : List Row)
      → fired_gates policy hits rows ≡ fired_gates policy hits (measured_rows rows)
  unfolding fired_gates
  fired_gates-measured hits [] = refl
  fired_gates-measured hits (r ∷ rows) = elim (Bool-cases (counts r)) [
    | inl e ↦
        let next =
          if fires policy r
          then add_hit r (gate_for policy r.spec.root_cause_group) hits
          else hits in
        fired_gates-measured next rows
        ∙ ap (fired_gates policy hits) (sym (keep_yes counts r rows e))
    | inr e ↦
        let quiet : fires policy r ≡ false =
          rw (fail_counts r.outcome.state e) (and_false (is_gate r.spec.score_effect)) in
        rw (quiet, e) (fired_gates-measured hits rows)
  ]

module _ {F : Type 0} ⦃fl : Float F⦄ where
  -- two sums that agree on what is measured
  record Same (t u : Totals F) : Type 0 where
    pub measured_w : t.measured_w ≡ u.measured_w
    pub cat_num : t.cat_num ≡ u.cat_num
    pub cat_den : t.cat_den ≡ u.cat_den

  module _ (policy : ScoringPolicy F) (merged : Merged F) where
    add_measured-Same :
        (r : Row) (t u : Totals F)
        → Same t u
        → Same (add_measured policy merged r t) (add_measured policy merged r u)
    unfolding add_measured
    add_measured-Same r t u h = elim (Bool-cases (is_weighted r.spec.score_effect)) [
      | inl e ↦ rw e (record {
        measured_w = ap (λ x. fl.add x (row_weight policy merged r)) h.measured_w;
        cat_num = ap (bump r.spec.category _) h.cat_num;
        cat_den = ap (bump r.spec.category _) h.cat_den;
      })
      | inr e ↦ rw e (record {
        measured_w = ap (λ x. fl.add x (row_weight policy merged r)) h.measured_w;
        cat_num = h.cat_num;
        cat_den = h.cat_den;
      })
    ]

    add_applicable-Same :
        (r : Row) (t u : Totals F) → Same t u → Same (add_applicable policy merged r t) u
    unfolding add_applicable
    add_applicable-Same r t u h = record {
      measured_w = h.measured_w;
      cat_num = h.cat_num;
      cat_den = h.cat_den;
    }

    mirror : {t u : Totals F} → Same t u → Same u t
    mirror h = record {
      measured_w = sym h.measured_w;
      cat_num = sym h.cat_num;
      cat_den = sym h.cat_den;
    }

    add_row-Same :
        (r : Row) (t u : Totals F)
        → Same t u
        → Same (add_row policy merged r t) (add_row policy merged r u)
    unfolding add_row
    add_row-Same r t u h =
        let left = add_applicable-Same r t u h in
        let both = mirror (add_applicable-Same r u _ (mirror left)) in
        elim (Bool-cases (is_na r.outcome.state || contains merged.deduped r.spec.rule_id)) [
          | inl e ↦ rw e h
          | inr e ↦ elim (Bool-cases (counts r)) [
            | inl m ↦ rw (e, m) (add_measured-Same r _ _ both)
            | inr m ↦ rw (e, m) both
          ]
        ]

    add_row-unmeasured :
        (r : Row) (t u : Totals F)
        → counts r ≡ false
        → Same t u
        → Same (add_row policy merged r t) u
    unfolding add_row
    add_row-unmeasured r t u m h =
        elim (Bool-cases (is_na r.outcome.state || contains merged.deduped r.spec.rule_id)) [
          | inl e ↦ rw e h
          | inr e ↦ rw (e, m) (add_applicable-Same r t u h)
        ]

    totals_from-measured :
        (t u : Totals F) (rows : List Row)
        → Same t u
        → Same (totals_from policy merged t rows) (totals_from policy merged u (measured_rows rows))
    unfolding totals_from
    totals_from-measured t u [] h = h
    totals_from-measured t u (r ∷ rows) h = elim (Bool-cases (counts r)) [
      | inl e ↦
          subst
            (λ rs.
              Same (totals_from policy merged (add_row policy merged r t) rows)
                (totals_from policy merged u rs))
            (sym (keep_yes counts r rows e))
            (totals_from-measured (add_row policy merged r t) (add_row policy merged r u) rows
              (add_row-Same r t u h))
      | inr e ↦
          subst
            (λ rs.
              Same (totals_from policy merged (add_row policy merged r t) rows)
                (totals_from policy merged u rs))
            (sym (keep_no counts r rows e))
            (totals_from-measured (add_row policy merged r t) u rows (add_row-unmeasured r t u e h))
    ]

  module _ (policy : ScoringPolicy F) (profile : String) where
    raw_scores_step :
        (t u : Totals F) (c : R2Category) (cs : List R2Category)
        → raw_score policy profile t c ≡ raw_score policy profile u c
        → raw_scores policy profile t cs ≡ raw_scores policy profile u cs
        → raw_scores policy profile t (c ∷ cs) ≡ raw_scores policy profile u (c ∷ cs)
    unfolding raw_scores
    raw_scores_step t u c cs one rest =
        let next = raw_scores policy profile t cs in
        ap (λ o. elim o [ none ↦ next | some s ↦ (c, s) ∷ next ]) one
        ∙ ap (λ ys. elim (raw_score policy profile u c) [ none ↦ ys | some s ↦ (c, s) ∷ ys ]) rest

    raw_score-Same :
        (t u : Totals F) (c : R2Category)
        → Same t u
        → raw_score policy profile t c ≡ raw_score policy profile u c
    unfolding raw_score
    raw_score-Same t u c h = rw (h.cat_num, h.cat_den) refl

    raw_scores-Same :
        (t u : Totals F) (cs : List R2Category)
        → Same t u
        → raw_scores policy profile t cs ≡ raw_scores policy profile u cs
    unfolding raw_scores
    raw_scores-Same t u [] h = refl
    raw_scores-Same t u (c ∷ cs) h =
        raw_scores_step t u c cs (raw_score-Same t u c h) (raw_scores-Same t u cs h)

    -- the sums that `score_r2` forms of its rows
    abbrev pub sums : List Row → Totals F
    sums rows = totals_from policy (merge_rows policy rows) no_totals rows

    -- Rows whose state is not measured neither move a category's score nor fire a gate: the scores of
    -- the categories, and the gates that fired, are those of the measured rows alone.
    pub scores_measured :
        (rows : List Row) (cs : List R2Category)
        → (raw_scores policy profile (sums rows) cs
            ≡ raw_scores policy profile (sums (measured_rows rows)) cs)
          × (fired_gates policy [] rows ≡ fired_gates policy [] (measured_rows rows))
    unfolding merge_rows
    scores_measured rows cs =
        let merged : merge_rows policy rows ≡ merge_rows policy (measured_rows rows) =
          rw (clusters_from-measured [] rows) refl in
        let same =
          totals_from-measured policy (merge_rows policy rows) no_totals no_totals rows
            (record { measured_w = refl; cat_num = refl; cat_den = refl }) in
        (
          raw_scores-Same _ _ cs same
              ∙ ap
                  (λ m.
                    raw_scores policy profile (totals_from policy m no_totals (measured_rows rows))
                      cs)
                  merged,
          fired_gates-measured policy [] rows,
        )
