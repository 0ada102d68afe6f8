-- ===== src/Checks/Base.antt =====
-- checks/base.py: a check, its verdicts, and `run`. The body of a check is a parameter: a function on
-- the store and the context whose exception is a value.
use scovant_core.Prelude.{
  String, Bool, true, Option, none, some, List, if◌then◌else◌, contains, concat, cut, Result, ok,
  err, ◌>>=◌,
}
use scovant_core.Prelude.Json.{Json, null, text, object, no_more, field}
use scovant_core.Models.{
  Category, CheckResult, CheckStatus, Confidence, Severity, OwaspEntry, is_defect,
}
use scovant_core.Owasp.{OwaspError, parse_standards}
use scovant_core.Context.{ScanContext}
use scovant_core.Evidence.{Store, GatherError, Raised}

-- what the body of a check raises
pub data CheckRaised : Type 0 where
  evidence_unavailable : GatherError → CheckRaised
  other : Raised → CheckRaised

-- a run of a body
pub record Evaluated : Type 0 where
  pub store : Store
  pub answer : Result CheckRaised CheckResult

pub record CoreCheck : Type 0 where
  pub id : String
  pub title : String
  pub category : Category
  -- `none`: the check applies to every profile
  pub profiles : Option (List String)
  pub severity_on_fail : Severity
  pub check_version : String
  pub experimental : Bool
  pub standards : List String
  pub why_it_matters : String
  pub limitations : String
  pub cloud_extension : String
  pub family_id : String
  pub verification_mode : String
  pub security_domain : String
  pub fix_owner : String
  pub security_tags : List String
  pub evaluate : Store → ScanContext → Evaluated

abbrev pub in_profiles : Option (List String) → String → Bool
in_profiles none profile = true
in_profiles (some ps) profile = contains ps profile

-- `CoreCheck.applicable`
abbrev pub applicable : CoreCheck → ScanContext → Bool
applicable c ctx = in_profiles c.profiles ctx.resolved_profile

-- the severity that `result` takes by default
abbrev pub severity_or : Option Severity → CoreCheck → CheckStatus → Severity
severity_or (some s) c status = s
severity_or none c status = if is_defect status then c.severity_on_fail else Severity.info

-- the value that `result` builds
abbrev pub filled :
    CoreCheck
    → CheckStatus
    → String
    → Json
    → Confidence
    → Option Severity
    → String
    → List OwaspEntry
    → CheckResult
filled c status summary evidence confidence severity remediation owasp = record {
  id = c.id;
  title = c.title;
  category = c.category;
  status = status;
  severity = severity_or severity c status;
  confidence = confidence;
  summary = summary;
  evidence = evidence;
  why_it_matters = c.why_it_matters;
  limitations = c.limitations;
  cloud_extension = c.cloud_extension;
  remediation = remediation;
  experimental = c.experimental;
  check_version = c.check_version;
  family_id = c.family_id;
  verification_mode = c.verification_mode;
  security_domain = c.security_domain;
  fix_owner = c.fix_owner;
  security_tags = c.security_tags;
  owasp_agentic = owasp;
}

-- `CoreCheck.result`
unfoldable pub result :
    CoreCheck
    → CheckStatus
    → String
    → Json
    → Confidence
    → Option Severity
    → String
    → Result OwaspError CheckResult
unfolding parse_standards
result c status summary evidence confidence severity remediation = do
  owasp ← parse_standards c.standards
  ok (filled c status summary evidence confidence severity remediation owasp)

abbrev pub not_applicable_text : ScanContext → String
not_applicable_text ctx = concat "Not applicable to the " (concat ctx.resolved_profile " profile.")

-- `CoreCheck.na`
unfoldable pub na : CoreCheck → String → Json → Confidence → Result OwaspError CheckResult
unfolding result
na c summary evidence confidence =
    result c CheckStatus.na summary evidence confidence (some Severity.info) ""

-- `CoreCheck.error`
unfoldable pub error : CoreCheck → String → Json → Result OwaspError CheckResult
unfolding result
error c reason evidence =
    result c CheckStatus.error (concat "Could not evaluate: " reason) evidence Confidence.low
      (some Severity.info) ""

-- `dataclasses.asdict(exc.err)` under its key
abbrev gather_error_json : GatherError → Json
gather_error_json e = object (
    field "gather_error"
      (object (
        field "name" (text e.name)
          (field "kind" (text e.kind) (field "message" (text e.message) no_more))))
      no_more)

-- `str(exc)` of `EvidenceUnavailable`
abbrev unavailable_text : GatherError → String
unavailable_text e = concat e.name (concat ": " (concat e.kind (concat ": " e.message)))

-- the two handlers of `run`
unfoldable pub handled : CoreCheck → CheckRaised → Result OwaspError CheckResult
unfolding error cut
handled c (evidence_unavailable e) = error c (unavailable_text e) (gather_error_json e)
handled c (other e) = error c (cut 200 (concat e.kind (concat ": " e.message))) null

abbrev pub or_handled : CoreCheck → Result CheckRaised CheckResult → Result OwaspError CheckResult
or_handled c (ok r) = ok r
or_handled c (err e) = handled c e

-- `CoreCheck.run`
unfoldable pub run : CoreCheck → Store → ScanContext → Store × Result OwaspError CheckResult
unfolding na handled
run c store ctx =
    if applicable c ctx
    then ((c.evaluate store ctx).store, or_handled c (c.evaluate store ctx).answer)
    else (store, na c (not_applicable_text ctx) null Confidence.high)
