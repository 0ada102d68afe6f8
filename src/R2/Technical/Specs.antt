-- ===== src/R2/Technical/Specs.antt =====
-- r2/technical.py: the manifest of the registered rules.
use scovant_core.Prelude.{
  String, Bool, not, ◌&&◌, some, List, [], ◌∷◌, ◌++◌, keep, if◌then◌else◌, contains, concat, Result,
  ok, ◌>>=◌,
}
use scovant_core.Rules.{CoreRule, RuleMaturity, is_deprecated}
use scovant_core.Rules.Products.{profile_policy_id}
use scovant_core.R2.Manifest.{
  RuleSpec, RuleScope, ScoreEffect, Maturity, ManifestError, Manifest, validate_spec, make_manifest,
}
use scovant_core.R2.Technical.{marker_codes, gate_robots_spec}

-- `"required" if rule.maturity == "required" else "experimental"`
abbrev pub spec_maturity : RuleMaturity → Maturity
spec_maturity RuleMaturity.required = Maturity.required
spec_maturity _ = Maturity.experimental

abbrev pub scope_of : CoreRule → RuleScope
scope_of r = if r.is_domain then RuleScope.domain else RuleScope.page

-- what `rule_spec` gives to the class
abbrev pub spec_of : CoreRule → String → RuleScope → Bool → RuleSpec
spec_of r owner scope marker = record {
  rule_id = r.code;
  signal = concat owner (concat ":" r.code);
  category = r.category;
  severity = r.severity;
  scope = scope;
  score_effect = if marker then ScoreEffect.diagnostic else ScoreEffect.weighted;
  root_cause_group = "";
  profiles = [];
  maturity = spec_maturity r.maturity;
  rule_version = r.rule_version;
}

-- `rule_spec`
unfoldable pub rule_spec : CoreRule → String → RuleScope → Bool → Result ManifestError RuleSpec
unfolding validate_spec
rule_spec r owner scope marker = validate_spec (spec_of r owner scope marker)

-- `DEAD_IN_PRODUCTION`
abbrev pub dead_in_production : List String
dead_in_production = []

-- the rules of the manifest
abbrev pub counted_rules : List CoreRule → List CoreRule
counted_rules rules =
    keep (λ r. not (contains dead_in_production r.code) && not (is_deprecated r.maturity)) rules

unfoldable pub rule_specs : List CoreRule → Result ManifestError (List RuleSpec)
unfolding rule_spec
rule_specs [] = ok []
rule_specs (r ∷ rs) = do
  spec ← rule_spec r "core" (scope_of r) (contains marker_codes r.code)
  specs ← rule_specs rs
  ok (spec ∷ specs)

-- `technical_manifest`, on the registered rules
unfoldable pub technical_manifest : List CoreRule → Result ManifestError Manifest
unfolding rule_specs make_manifest
technical_manifest rules = do
  specs ← rule_specs (counted_rules rules)
  make_manifest (specs ++ gate_robots_spec ∷ []) (some profile_policy_id)
