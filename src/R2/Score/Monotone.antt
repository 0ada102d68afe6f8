-- ===== src/R2/Score/Monotone.antt =====
-- A rule that does better never lowers the rating.
mod Defs
mod Rows
mod Merge
mod Totals
mod Gates
mod Rating
use mathlib.Core.Path.{subst₂}
use scovant_core.Prelude.{
  String, ◌≡◌, refl, ap, Option, List, [], ◌∷◌, Both, Result, ok, ◌>>=◌, >>=-eq-ok, lower, strip,
  str_leb,
}
use scovant_core.Prelude.Sort.{sort_by}
use scovant_core.Prelude.Float.{Float, IsMonotone, ◌≼◌}
use scovant_core.R2.Outcome.{Outcome, categories}
use scovant_core.R2.Policy.{ScoringPolicy}
use scovant_core.R2.Manifest.{Manifest}
use scovant_core.R2.Score.Rows.{ScoreError, Row, index_outcomes, build_rows}
use scovant_core.R2.Score.Gates.{fired_gates}
use scovant_core.R2.Score.Merge.{merge_rows}
use scovant_core.R2.Score.Totals.{totals_from, no_totals}
use scovant_core.R2.Score.Rating.{R2Result, Status, Rated, raw_scores, rate, score_rows, score_r2}
use Defs.{RowLe}
use Rows.{RowsLe, EntryLe, index_outcomes-EntryLe, build_rows-RowsLe}
use Merge.{merge_rows-MergedLe}
use Totals.{totals-TotalsLe}
use Gates.{fired_gates-Covered}
use Rating.{RatedLe, raw_scores-ScoreLe, rate-RatedLe, raw_coverage_alike}
pub use Rows.{OutcomeLe}
pub use Rating.{IsPositive, NumberLe, FloatLe, LabelLe, NotBelow}

module _ {F : Type 0} ⦃fl : Float F⦄ where
  -- The second rating is at least as good as the first, on the same evidence.
  pub record ResultLe (policy : ScoringPolicy F) (a b : R2Result F) : Type 0 where
    pub rating_raw : FloatLe a.rating_raw b.rating_raw
    pub rating : NumberLe a.rating b.rating
    pub grade : LabelLe policy.grades a.grade b.grade
    pub badge : LabelLe policy.badges a.badge b.badge
    pub status : a.status ≡ b.status
    pub coverage : a.coverage ≡ b.coverage
    pub unknown_rules : a.unknown_rules ≡ b.unknown_rules

  finish :
      {policy : ScoringPolicy F} {x y a b : R2Result F}
      → ◌≡◌ {A = Result ScoreError (R2Result F)} (ok x) (ok a)
      → ◌≡◌ {A = Result ScoreError (R2Result F)} (ok y) (ok b)
      → ResultLe policy x y
      → ResultLe policy a b
  finish {policy} {x} {y} {a} {b} p q h =
      let here : x ≡ a = cc in let there : y ≡ b = cc in subst₂ (ResultLe policy) here there h

  module _ (laws : IsMonotone F) (policy : ScoringPolicy F) (positive : IsPositive policy) where
    score_rows-ResultLe :
        (profile : String) (rows rows' : List Row) (unknown unknown' : List String)
        {a b : R2Result F}
        → Both RowLe rows rows'
        → unknown ≡ unknown'
        → score_rows policy profile rows unknown ≡ ok a
        → score_rows policy profile rows' unknown' ≡ ok b
        → ResultLe policy a b
    unfolding score_rows
    score_rows-ResultLe profile rows rows' unknown unknown' {a} {b} h e p q =
        let hits = fired_gates policy [] rows in
        let hits' = fired_gates policy [] rows' in
        let t = totals_from policy (merge_rows policy rows) no_totals rows in
        let u = totals_from policy (merge_rows policy rows') no_totals rows' in
        let (x, px, p') =
          >>=-eq-ok (rate policy hits t (raw_scores policy profile t categories)) _ p in
        let (y, qy, q') =
          >>=-eq-ok (rate policy hits' u (raw_scores policy profile u categories)) _ q in
        let totals =
          totals-TotalsLe laws policy (merge_rows-MergedLe laws policy rows rows' h) rows rows' h in
        let rated =
          rate-RatedLe laws policy positive hits hits' t u _ _ x y
            (fired_gates-Covered policy [] [] rows rows' tt tt h) totals
            (raw_scores-ScoreLe laws policy positive profile t u categories totals) px qy in
        finish p' q' (record {
          rating_raw = rated.rating_raw;
          rating = rated.rating;
          grade = rated.grade;
          badge = rated.badge;
          status = rated.status;
          coverage = ap (fl.round_to 3) (raw_coverage_alike laws policy positive t u totals);
          unknown_rules = ap (sort_by str_leb) e;
        })

    -- For a number type with the laws of `IsMonotone`: take two scans with the same rules, pages and
    -- evidence keys, where each outcome of the second is no worse than the first's: its state is the
    -- same or moved up in FAIL, WARN, PASS, and no more pages failed. If the first's outcomes are
    -- accepted by the class, the prior and the category weights of the policy are not negative, and
    -- both scans are scored, then the second's rating is no lower, before and after the caps; for a
    -- grade or badge that was given the second has the same, or one that stands before it in the
    -- policy's list of labels; and status, coverage and the list of unknown rules are the same.
    pub score_r2_monotone :
        (profile : String) (manifest : Manifest) (os os' : List Outcome) {a b : R2Result F}
        → Both OutcomeLe os os'
        → score_r2 policy profile manifest os ≡ ok a
        → score_r2 policy profile manifest os' ≡ ok b
        → ResultLe policy a b
    unfolding score_r2
    score_r2_monotone profile manifest os os' h p q =
        let (d, pd, p') = >>=-eq-ok (index_outcomes manifest os []) _ p in
        let (e, qe, q') = >>=-eq-ok (index_outcomes manifest os' []) _ q in
        let entries = index_outcomes-EntryLe manifest os os' [] [] h tt pd qe in
        let name = lower (strip profile) in
        let (x, px, p'') = >>=-eq-ok (build_rows policy name d manifest.specs) _ p' in
        let (y, qy, q'') = >>=-eq-ok (build_rows policy name e manifest.specs) _ q' in
        let rows = build_rows-RowsLe policy name d e manifest.specs entries px qy in
        score_rows-ResultLe name x.0 y.0 x.1 y.1 rows.rows rows.unknown p'' q''
