-- ===== src/R2/Score/Rating.antt =====
-- r2/score.py, the last stage: the categories, the rating with its caps, grade and badge, and
-- `score_r2` as a whole. The digests `model_id` and `result_hash` are left out.
use scovant_core.Prelude.{
  ℕ, String, Bool, not, ◌&&◌, ◌||◌, Option, none, some, List, [], ◌∷◌, map, ltb, any, if◌then◌else◌,
  is_empty, str_leb, lower, strip, Result, ok, ◌>>=◌, ◌>>◌, raise_if,
}
use scovant_core.Prelude.Sort.{sort_by}
use scovant_core.Prelude.Float.{Float, zero_F, max_F, min_F}
use scovant_core.R2.Outcome.{Outcome, R2Category, categories}
use scovant_core.R2.Policy.{ScoringPolicy, category_applies, is_cap, is_badge_block}
use scovant_core.R2.Manifest.{Manifest}
use scovant_core.R2.Score.Rows.{ScoreError, zero_division, Row, index_outcomes, build_rows}
use scovant_core.R2.Score.Gates.{GateHit, fired_gates}
use scovant_core.R2.Score.Merge.{merge_rows}
use scovant_core.R2.Score.Totals.{Totals, no_totals, totals_from}

pub record CategoryResult (F : Type 0) : Type 0 where
  pub category : R2Category
  pub score : Option F
  pub weight : F
  pub applicable : Bool
  pub applicable_weight : F
  pub measured_weight : F

pub data Status : Type 0 where
  ok_status degraded insufficient_evidence : Status

pub data Confidence : Type 0 where
  high medium low : Confidence

pub record R2Result (F : Type 0) : Type 0 where
  pub policy_name : String
  pub profile : String
  pub rating_raw : Option F
  pub rating : Option ℕ
  pub grade : Option String
  pub badge : Option String
  pub status : Status
  pub confidence : Confidence
  pub coverage : F
  pub categories : List (CategoryResult F)
  pub gates_applied : List GateHit
  pub deduplicated : List String
  pub unknown_rules : List String

-- `_floor_label`
unfoldable pub floor_label : ℕ → List (ℕ × String) → Option String
floor_label value [] = none
floor_label value ((floor, label) ∷ ladder) =
    if ltb value floor then floor_label value ladder else some label

-- the caps of the fired gates
abbrev pub capped_by : GateHit → ℕ → ℕ
capped_by h rating = elim h.cap [
  | none ↦ rating
  | some c ↦ if is_cap h.effect && ltb c rating then c else rating
]

unfoldable pub apply_caps : ℕ → List GateHit → ℕ
apply_caps rating [] = rating
apply_caps rating (h ∷ hits) = apply_caps (capped_by h rating) hits

abbrev pub blocks_badge : List GateHit → Bool
blocks_badge hits = any (λ h. is_badge_block h.effect) hits

-- what the last stage decides
pub record Rated (F : Type 0) : Type 0 where
  pub rating_raw : Option F
  pub rating : Option ℕ
  pub grade : Option String
  pub badge : Option String
  pub status : Status
  pub confidence : Confidence

module _ {F : Type 0} ⦃fl : Float F⦄ (policy : ScoringPolicy F) where
  module _ (profile : String) (t : Totals F) where
    unfoldable pub raw_score : R2Category → Option F
    unfolding category_applies
    raw_score c =
        if category_applies policy c profile && fl.nonzero (t.cat_den c)
        then some (
            fl.div (fl.mul (fl.of_ℕ 100) (fl.add (t.cat_num c) policy.category_prior_weight))
              (fl.add (t.cat_den c) policy.category_prior_weight))
        else none

    unfoldable pub category_result : R2Category → CategoryResult F
    unfolding raw_score
    category_result c = record {
      category = c;
      score = elim (raw_score c) [ none ↦ none | some s ↦ some (fl.round_to 1 s) ];
      weight = policy.category_weights c;
      applicable = category_applies policy c profile;
      applicable_weight = t.cat_app c;
      measured_weight = t.cat_den c;
    }

    -- `raw_scores`, over the categories of a list
    unfoldable pub raw_scores : List R2Category → List (R2Category × F)
    unfolding raw_score
    raw_scores [] = []
    raw_scores (c ∷ cs) =
        let rest = raw_scores cs in elim (raw_score c) [ none ↦ rest | some s ↦ (c, s) ∷ rest ]

  -- `measured_w / applicable_w if applicable_w else 0.0`
  unfoldable pub raw_coverage : Totals F → F
  raw_coverage t = if fl.nonzero t.applicable_w then fl.div t.measured_w t.applicable_w else zero_F

  abbrev pub weights_of : List (R2Category × F) → List F
  weights_of scores = map (λ s. policy.category_weights s.0) scores

  abbrev pub products_of : List (R2Category × F) → List F
  products_of scores = map (λ s. fl.mul s.1 (policy.category_weights s.0)) scores

  -- the weighted mean, kept in 0 to 100
  unfoldable pub mean_of : List (R2Category × F) → F
  mean_of scores =
      min_F (fl.of_ℕ 100)
        (max_F zero_F (fl.div (fl.sum (products_of scores)) (fl.sum (weights_of scores))))

  -- half-up
  unfoldable pub half_up : F → ℕ
  half_up x = fl.floor (fl.add x (fl.lit 5 1))

  abbrev pub unrated : Rated F
  unrated = record {
    rating_raw = none;
    rating = none;
    grade = none;
    badge = none;
    status = Status.insufficient_evidence;
    confidence = Confidence.low;
  }

  -- the two outcomes of the test of `canonical_min_coverage`
  abbrev pub degraded_rating : F → ℕ → Rated F
  degraded_rating raw rating = record {
    rating_raw = some raw;
    rating = some rating;
    grade = none;
    badge = none;
    status = Status.degraded;
    confidence = Confidence.medium;
  }

  abbrev pub full_rating : List GateHit → F → ℕ → Rated F
  full_rating hits raw rating = record {
    rating_raw = some raw;
    rating = some rating;
    grade = floor_label rating policy.grades;
    badge = if blocks_badge hits then none else floor_label rating policy.badges;
    status = Status.ok_status;
    confidence = Confidence.high;
  }

  unfoldable pub rate :
      List GateHit → Totals F → List (R2Category × F) → Result ScoreError (Rated F)
  unfolding raw_coverage mean_of half_up apply_caps
  rate hits t scores =
      if fl.lt (raw_coverage t) policy.evidence_min_coverage || is_empty scores
      then ok unrated
      else do
        raise_if (not (fl.nonzero (fl.sum (weights_of scores)))) zero_division
        let raw = mean_of scores
        let rating = apply_caps (half_up raw) hits
        ok (
            if fl.lt (raw_coverage t) policy.canonical_min_coverage || t.any_error
            then degraded_rating raw rating
            else full_rating hits raw rating)

  -- `score_r2` behind the loop that builds the rows
  unfoldable pub score_rows : String → List Row → List String → Result ScoreError (R2Result F)
  unfolding fired_gates merge_rows totals_from category_result raw_scores rate sort_by
  score_rows profile rows unknown = do
    let hits = fired_gates policy [] rows
    let merged = merge_rows policy rows
    let t = totals_from policy merged no_totals rows
    rated ← rate hits t (raw_scores profile t categories)
    ok (record {
      policy_name = policy.name;
      profile = profile;
      rating_raw = rated.rating_raw;
      rating = rated.rating;
      grade = rated.grade;
      badge = rated.badge;
      status = rated.status;
      confidence = rated.confidence;
      coverage = fl.round_to 3 (raw_coverage t);
      categories = map (category_result profile t) categories;
      gates_applied = hits;
      deduplicated = sort_by str_leb merged.deduped;
      unknown_rules = sort_by str_leb unknown;
    })

  unfoldable pub score_r2 : String → Manifest → List Outcome → Result ScoreError (R2Result F)
  unfolding lower strip index_outcomes build_rows score_rows
  score_r2 given manifest outcomes = do
    let profile = lower (strip given)
    by_id ← index_outcomes manifest outcomes []
    r ← build_rows policy profile by_id manifest.specs
    score_rows profile r.0 r.1
