-- ===== src/R2/Readiness/Tests.antt =====
-- The block of a run in which one rule passes and one was not measured.
use scovant_core.Prelude.{◌≡◌, refl, false, none, List, [], ◌∷◌, Result, ok, err}
use scovant_core.Prelude.Float.Fixed.{Fixed, fixed, fixed-IsMonotone}
use scovant_core.Models.{Severity}
use scovant_core.Capabilities.{Capability, Source}
use scovant_core.R2.Outcome.{Outcome, OutcomeState, R2Category, plain}
use scovant_core.R2.Policy.{public_policy}
use scovant_core.R2.Manifest
use scovant_core.R2.Manifest.{Manifest, RuleSpec, RuleScope, ScoreEffect, Maturity}
use scovant_core.R2.Score.Rows.{ScoreError}
use scovant_core.R2.Score.Rating.{R2Result, Status, Confidence, score_r2}
use scovant_core.R2.Evaluate.{TechnicalRun}
use scovant_core.Prelude.{All, In, map}
use scovant_core.R2.Readiness.Listed.{entry_of, technical_block-Listed}
use scovant_core.R2.Readiness.{reported_outcomes, technical_block}
use scovant_core.R2.Readiness.Estimated.{IsEstimated, technical_block-IsEstimated}

abbrev sitemap_rule : RuleSpec
sitemap_rule = record {
  rule_id = "SITEMAP-001";
  signal = "sitemap";
  category = R2Category.discoverability;
  severity = Severity.high;
  scope = RuleScope.domain;
  score_effect = ScoreEffect.weighted;
  root_cause_group = "";
  profiles = [];
  maturity = Maturity.required;
  rule_version = "1";
}

abbrev rules : Manifest
rules = record {
  specs =
      sitemap_rule ∷ record sitemap_rule { rule_id = "TRU-001"; category = R2Category.trust } ∷ [];
  applicability = none;
}

abbrev outcomes : List Outcome
outcomes =
    plain "SITEMAP-001" OutcomeState.pass "predicate"
    ∷ plain "TRU-001" OutcomeState.not_measured "predicate"
    ∷ []

-- what `score_r2` returns, or else `r`
result_or : R2Result Fixed → Result ScoreError (R2Result Fixed) → R2Result Fixed
result_or r (ok x) = x
result_or r (err e) = r

abbrev no_result : R2Result Fixed
no_result = record {
  policy_name = "";
  profile = "";
  rating_raw = none;
  rating = none;
  grade = none;
  badge = none;
  status = Status.ok_status;
  confidence = Confidence.low;
  coverage = 0;
  categories = [];
  gates_applied = [];
  deduplicated = [];
  unknown_rules = [];
}

abbrev unset : Capability
unset = record { value = none; source = Source.unknown; proof = [] }

run : TechnicalRun Fixed
run = record {
  result = result_or no_result (score_r2 public_policy "saas" rules outcomes);
  outcomes = outcomes;
  capabilities = record {
    product_catalog = unset;
    physical_goods = unset;
    transactional_checkout = unset;
  };
}

scored : score_r2 public_policy "saas" rules outcomes ≡ ok run.result
unfolding run result_or score_r2 Manifest.get
scored = refl

technical_block-IsEstimated_example :
    IsEstimated run.result (technical_block false ("sitemap" ∷ []) rules run "saas" "profile")
technical_block-IsEstimated_example =
    technical_block-IsEstimated fixed-IsMonotone public_policy "saas" rules outcomes run false
      ("sitemap" ∷ []) "saas" "profile" scored

technical_block-Listed_example :
    All
      (λ n. In n (map entry_of (reported_outcomes false ("sitemap" ∷ []) rules run.outcomes)))
      (technical_block false ("sitemap" ∷ []) rules run "saas" "profile").not_measured
technical_block-Listed_example =
    technical_block-Listed false ("sitemap" ∷ []) rules run "saas" "profile"
