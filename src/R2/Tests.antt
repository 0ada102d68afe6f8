-- ===== src/R2/Tests.antt =====
-- Runs of the rating on a small scan, and the theorems at it.
use scovant_core.Prelude.{
  ℕ, ◌≡◌, refl, false, none, some, List, [], ◌∷◌, Result, ok, err, Both, All, ltb, arith, ◌↔◌,
  lower, strip,
}
use scovant_core.Prelude.Float.Fixed.{Fixed, fixed, fixed-IsMonotone}
use scovant_core.Models.{Severity}
use scovant_core.R2.Outcome.{
  Outcome, OutcomeState, R2Category, plain, categories, state_value, pages_consistent,
}
use scovant_core.R2.Policy.{ScoringPolicy, public_policy}
use scovant_core.R2.Manifest.{RuleSpec, RuleScope, ScoreEffect, Maturity, Manifest, make_manifest}
use scovant_core.R2.Score.Rows.{ScoreError, Row, index_outcomes}
use scovant_core.R2.Score.Gates.{fired_gates}
use scovant_core.R2.Score.Monotone.{score_r2_monotone, ResultLe, OutcomeLe, IsPositive}
use scovant_core.R2.Score.Index.{
  Indexed, IsListed, IsDistinct, Agree, index_outcomes_accepts, score_r2-Agree,
}
use scovant_core.R2.Score.Neutral.{sums, measured_rows, scores_measured}
use scovant_core.R2.Score.Fired.{IsGateList, fired_gates-IsGateList}
use scovant_core.R2.Manifest
use scovant_core.R2.Manifest.Owners.{IsOwned, make_manifest-IsOwned}
use scovant_core.R2.Score.Rating.{R2Result, Status, Confidence, score_r2, raw_scores}

abbrev policy : ScoringPolicy Fixed
policy = public_policy

abbrev robots_rule : RuleSpec
robots_rule = record {
  rule_id = "ACC-001";
  signal = "robots.access";
  category = R2Category.discoverability;
  severity = Severity.critical;
  scope = RuleScope.domain;
  score_effect = ScoreEffect.gate;
  root_cause_group = "agent_access_blocked";
  profiles = [];
  maturity = Maturity.required;
  rule_version = "1";
}

abbrev schema_rule : RuleSpec
schema_rule = record {
  rule_id = "STR-001";
  signal = "schema.present";
  category = R2Category.structured;
  severity = Severity.high;
  scope = RuleScope.page;
  score_effect = ScoreEffect.weighted;
  root_cause_group = "schema";
  profiles = [];
  maturity = Maturity.required;
  rule_version = "1";
}

abbrev note_rule : RuleSpec
note_rule = record {
  rule_id = "TRU-009";
  signal = "trust.note";
  category = R2Category.trust;
  severity = Severity.low;
  scope = RuleScope.domain;
  score_effect = ScoreEffect.diagnostic;
  root_cause_group = "";
  profiles = [];
  maturity = Maturity.required;
  rule_version = "1";
}

abbrev rules : Manifest
rules = record { specs = robots_rule ∷ schema_rule ∷ note_rule ∷ []; applicability = none }

-- the schema rule on four pages
abbrev schema_on : OutcomeState → ℕ → Outcome
schema_on state failed = record (plain "STR-001" state "schema") {
  pages_measured = some 4;
  pages_failed = some failed;
}

abbrev before : List Outcome
before = plain "ACC-001" OutcomeState.fail "" ∷ schema_on OutcomeState.fail 2 ∷ []

abbrev after : List Outcome
after = plain "ACC-001" OutcomeState.pass "" ∷ schema_on OutcomeState.warn 1 ∷ []

abbrev scored : List Outcome → Result ScoreError (R2Result Fixed)
scored os = score_r2 policy "saas" rules os

abbrev no_result : R2Result Fixed
no_result = record {
  policy_name = "";
  profile = "";
  rating_raw = none;
  rating = none;
  grade = none;
  badge = none;
  status = Status.ok_status;
  confidence = Confidence.low;
  coverage = 0;
  categories = [];
  gates_applied = [];
  deduplicated = [];
  unknown_rules = [];
}

result_of : Result ScoreError (R2Result Fixed) → R2Result Fixed
result_of (ok r) = r
result_of (err e) = no_result

rating-before_test : (result_of (scored before)).rating ≡ some 68
unfolding score_r2 result_of Manifest.get state_value
rating-before_test = refl

badge-before_test : (result_of (scored before)).badge ≡ none
unfolding score_r2 result_of Manifest.get state_value
badge-before_test = refl

rating-after_test : (result_of (scored after)).rating ≡ some 92
unfolding score_r2 result_of Manifest.get state_value
rating-after_test = refl

before-ok : scored before ≡ ok (result_of (scored before))
unfolding score_r2 result_of Manifest.get
before-ok = refl

after-ok : scored after ≡ ok (result_of (scored after))
unfolding score_r2 result_of Manifest.get
after-ok = refl

weights_positive : (c : R2Category) → ltb (policy.category_weights c) 0 ≡ false
weights_positive R2Category.discoverability = refl
weights_positive R2Category.structured = refl
weights_positive R2Category.consistency = refl
weights_positive R2Category.actionability = refl
weights_positive R2Category.trust = refl
weights_positive R2Category.ucp = refl
weights_positive R2Category.citability = refl

policy-IsPositive : IsPositive policy
policy-IsPositive = record { prior = refl; weights = weights_positive }

better : Both OutcomeLe before after
unfolding pages_consistent
better = (
  record {
    improves = record {
      same_rule = refl;
      same_key = refl;
      same_pages = refl;
      state = tt;
      failed = tt;
    };
    accepted = refl;
  },
  (
    record {
      improves = record {
        same_rule = refl;
        same_key = refl;
        same_pages = refl;
        state = tt;
        failed = omega arith;
      };
      accepted = refl;
    },
    tt,
  ),
)

score_r2_monotone_example : ResultLe policy (result_of (scored before)) (result_of (scored after))
score_r2_monotone_example =
    score_r2_monotone fixed-IsMonotone policy policy-IsPositive "saas" rules before after better
      before-ok after-ok

index_outcomes_accepts_example :
    Indexed rules before [] ↔ (All (IsListed rules) before × IsDistinct before)
index_outcomes_accepts_example = index_outcomes_accepts rules before

-- the two outcomes the other way round, and one of the diagnostic rule
abbrev shuffled : List Outcome
shuffled =
    schema_on OutcomeState.fail 2
    ∷ plain "TRU-009" OutcomeState.fail ""
    ∷ plain "ACC-001" OutcomeState.fail ""
    ∷ []

before-Indexed : Indexed rules before []
unfolding index_outcomes Manifest.get
before-Indexed = (_, refl)

shuffled-Indexed : Indexed rules shuffled []
unfolding index_outcomes Manifest.get
shuffled-Indexed = (_, refl)

shuffled-Agree : Agree policy (lower (strip "saas")) before shuffled rules.specs
shuffled-Agree = (λ _. refl, (λ _. refl, (λ h. cc, tt)))

score_r2-Agree_example : scored before ≡ scored shuffled
score_r2-Agree_example =
    score_r2-Agree policy "saas" rules before shuffled before-Indexed shuffled-Indexed
      shuffled-Agree

abbrev rows : List Row
rows =
    record { spec = robots_rule; outcome = plain "ACC-001" OutcomeState.error "" }
    ∷ record { spec = schema_rule; outcome = schema_on OutcomeState.fail 2 }
    ∷ record { spec = robots_rule; outcome = plain "ACC-001" OutcomeState.fail "" }
    ∷ []

scores_measured_example :
    (raw_scores policy "saas" (sums policy "saas" rows) categories
      ≡ raw_scores policy "saas" (sums policy "saas" (measured_rows rows)) categories)
    × (fired_gates policy [] rows ≡ fired_gates policy [] (measured_rows rows))
scores_measured_example = scores_measured policy "saas" rows categories

fired_gates-IsGateList_example : IsGateList policy rows (fired_gates policy [] rows)
fired_gates-IsGateList_example = fired_gates-IsGateList policy rows

abbrev given : List RuleSpec
given = note_rule ∷ schema_rule ∷ robots_rule ∷ []

made-ok : make_manifest given none ≡ ok rules
unfolding make_manifest
made-ok = refl

make_manifest-IsOwned_example : IsOwned rules
make_manifest-IsOwned_example = make_manifest-IsOwned given none made-ok
