-- ===== src/Analysis/ProtocolAdoption/Tests.antt =====
-- The UCP check of commerce sites on the scan of another site.
use scovant_core.Prelude.{
  String, ◌≡◌, refl, inl, false, none, some, List, [], ◌∷◌, ◌++◌, lookup, err,
}
use scovant_core.Prelude.Json.{null, text, object, no_more, field}
use scovant_core.Models.{Category, CheckResult, CheckStatus, Confidence, Severity}
use scovant_core.Owasp.{parse_standards}
use scovant_core.Context.{ScanContext}
use scovant_core.Evidence.{Store}
use scovant_core.Checks.Base.{CoreCheck, other, filled, not_applicable_text, result, na, run}
use scovant_core.Analysis.ProtocolAdoption.{
  Adoption, present, absent, invalid, not_checked, protocol_adoption,
}
use scovant_core.Analysis.ProtocolAdoption.Unmeasured.{protocol_adoption-run}

abbrev ucp_check : CoreCheck
ucp_check = record {
  id = "CORE-INTERFACE-008";
  title = "UCP";
  category = Category.interfaces;
  profiles = some ("commerce" ∷ []);
  severity_on_fail = Severity.medium;
  check_version = "1.0";
  experimental = false;
  standards = [];
  why_it_matters = "";
  limitations = "";
  cloud_extension = "";
  family_id = "";
  verification_mode = "PASSIVE_OBSERVED";
  security_domain = "";
  fix_owner = "";
  security_tags = [];
  evaluate = λ store ctx. record {
    store = store;
    answer = err (other (record { kind = "KeyError"; message = "'ucp'" }));
  };
}

abbrev empty_store : Store
empty_store = record { data_of = []; errors = [] }

abbrev saas_site : ScanContext
saas_site = record {
  input_url = "https://app.test/";
  final_url = none;
  origin = none;
  resolved_profile = "saas";
  profile_confidence = 80;
  scan_id = "local-2";
}

abbrev skipped : CheckResult
skipped =
    filled ucp_check CheckStatus.na (not_applicable_text saas_site) null Confidence.high
      (some Severity.info) "" []

-- the result of a check with some evidence
abbrev finding : String → CheckStatus → CheckResult
finding id status = record skipped {
  id = id;
  status = status;
  evidence = object (field "found_url" (text "") no_more);
}

abbrev before : List CheckResult
before =
    finding "CORE-INTERFACE-008" CheckStatus.pass
    ∷ finding "CORE-INTERFACE-001" CheckStatus.pass
    ∷ finding "CORE-INTERFACE-002" CheckStatus.warn
    ∷ []

abbrev after : List CheckResult
after =
    finding "CORE-INTERFACE-005" CheckStatus.warn
    ∷ finding "CORE-ACCESS-009" CheckStatus.na
    ∷ finding "CORE-INTERFACE-007" CheckStatus.pass
    ∷ []

protocol_adoption-run_example :
    (out : List (String × Adoption)) × (protocol_adoption (before ++ skipped ∷ after) ≡ some out)
    × (lookup "ucp" out ≡ some not_checked)
unfolding run na result parse_standards
protocol_adoption-run_example =
    protocol_adoption-run ucp_check empty_store saas_site skipped refl (inl refl) "ucp"
      (record { presence = "CORE-INTERFACE-008"; key = some "exists"; validity = [] }) refl refl
      before after refl

protocol_adoption_test :
    protocol_adoption (before ++ skipped ∷ after)
    ≡ some (
        ("mcp", invalid)
        ∷ ("webmcp", not_checked)
        ∷ ("ucp", not_checked)
        ∷ ("llms_txt", absent)
        ∷ ("openapi", absent)
        ∷ ("oauth", present)
        ∷ ("content_signal", not_checked)
        ∷ ("security_txt", not_checked)
        ∷ [])
unfolding protocol_adoption
protocol_adoption_test = refl
