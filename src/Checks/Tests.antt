-- ===== src/Checks/Tests.antt =====
-- The theorems on checks, the registry, the evidence, the summary and the scan at a small registry.
use mathlib.Core.Path.{subst}
use scovant_core.Prelude.{
  String, ◌≡◌, refl, true, false, Option, none, some, List, [], ◌∷◌, ◌++◌, All, lookup, upper, ok,
  err, Result, str_eq, if◌then◌else◌,
}
use scovant_core.Prelude.Json.{object, no_more}
use scovant_core.Models.{Category, CheckStatus, Confidence, Severity, CheckResult, OwaspEntry}
use scovant_core.Owasp.{parse_standards}
use scovant_core.Owasp.Served.{AreServed, parse_standards-AreServed}
use scovant_core.Context.{ScanOptions, ScanContext}
use scovant_core.Evidence.{Store, Ran, get, gathered, unavailable}
use scovant_core.Evidence.Once.{LeavesItself, get_again}
use scovant_core.Checks.Base.{CoreCheck, other, run}
use scovant_core.Checks.Degrade.{Ended, run-Ended}
use scovant_core.Checks.Registry.{validate_registry}
use scovant_core.Checks.Valid.{IsRegistry, validate_registry-IsRegistry}
use scovant_core.Engine.{
  validate_selectors, selected, prepared, scan, ScanError, not_gathered, Report,
}
use scovant_core.Engine.Selection.{Matched, validate_selectors-Matched}
use scovant_core.Engine.Completes.{Readable, KeepsHttp, IsCounted, scan_completes}

abbrev robots_check : CoreCheck
robots_check = record {
  id = "CORE-ACCESS-002";
  title = "robots.txt";
  category = Category.access;
  profiles = none;
  severity_on_fail = Severity.high;
  check_version = "1.0";
  experimental = false;
  standards = "RFC 9309" ∷ [];
  why_it_matters = "";
  limitations = "";
  cloud_extension = "";
  family_id = "";
  verification_mode = "PASSIVE_OBSERVED";
  security_domain = "";
  fix_owner = "";
  security_tags = [];
  evaluate = λ store ctx. record {
    store = store;
    answer = err (other (record { kind = "KeyError"; message = "'text'" }));
  };
}

abbrev header_check : CoreCheck
header_check = record robots_check {
  id = "CORE-SECURITY-001";
  category = Category.security;
  standards = "OWASP Agentic Top 10 2026: ASI03 (partial)" ∷ [];
  family_id = "SEC-WEB-001";
  security_domain = "web";
  fix_owner = "backend";
}

abbrev registry : List CoreCheck
registry = robots_check ∷ header_check ∷ []

abbrev none_yet : Store
none_yet = record { data_of = []; errors = [] }

abbrev context : ScanContext
context = record {
  input_url = "https://shop.test/";
  final_url = none;
  origin = none;
  resolved_profile = "saas";
  profile_confidence = 80;
  scan_id = "local-1";
}

abbrev options : ScanOptions
options = record {
  profile = "auto";
  max_pages = 5;
  user_agent_suffix = none;
  experimental = false;
  include = "core-access-002" ∷ "SECURITY" ∷ [];
  exclude = [];
  allow_private_networks = false;
  site_type = none;
  technical = true;
}

robots-readable : parse_standards robots_check.standards ≡ ok []
unfolding parse_standards
robots-readable = refl

abbrev identity_entry : OwaspEntry
identity_entry = record { id = "ASI03"; title = "Identity & Privilege Abuse"; relation = "PARTIAL" }

header-readable : parse_standards header_check.standards ≡ ok (identity_entry ∷ [])
unfolding parse_standards upper
header-readable = refl

parse_standards-AreServed_example : AreServed header_check.standards (identity_entry ∷ [])
parse_standards-AreServed_example = parse_standards-AreServed header_check.standards header-readable

run-Ended_example :
    (r : CheckResult) × ((run robots_check none_yet context).1 ≡ ok r)
    × Ended robots_check robots-readable none_yet context r
run-Ended_example = run-Ended robots_check robots-readable none_yet context

registry-ok : validate_registry registry ≡ ok tt
unfolding validate_registry
registry-ok = refl

validate_registry-IsRegistry_example : IsRegistry registry
validate_registry-IsRegistry_example = validate_registry-IsRegistry registry registry-ok

-- one gatherer, which fails
abbrev failing : String → Store → Ran
failing name s = record { store = s; answer = err (record { kind = "Timeout"; message = name }) }

abbrev gatherers : String → Option (Store → Ran)
gatherers name = some (failing name)

gatherers-LeavesItself : LeavesItself gatherers
gatherers-LeavesItself name fn s e h =
    let here : failing name ≡ fn = cc in subst (λ g. lookup name (g s).store.data_of ≡ none) here h

get_again_example :
    get gatherers "http" (get gatherers "http" none_yet).store ≡ get gatherers "http" none_yet
get_again_example = get_again gatherers gatherers-LeavesItself "http" none_yet

options-ok : validate_selectors registry options ≡ ok tt
unfolding validate_selectors
options-ok = refl

validate_selectors-Matched_example : All (Matched registry) (options.include ++ options.exclude)
validate_selectors-Matched_example = validate_selectors-Matched registry options options-ok

selected-Readable : All Readable (selected registry options)
unfolding selected
selected-Readable = (([], robots-readable), ((identity_entry ∷ [], header-readable), tt))

-- the entry page answers, the rest fails
abbrev gathers : String → Option (Store → Ran)
gathers name = some (λ s.
    if str_eq name "http"
    then record { store = s; answer = ok (object no_more) }
    else failing name s)

abbrev store_or : Result ScanError (Store × ScanContext) → Store × ScanContext
store_or (ok ready) = ready
store_or (err e) = (none_yet, context)

abbrev ready : Store × ScanContext
ready = store_or (prepared registry gathers [] options context none_yet)

ready-ok : prepared registry gathers [] options context none_yet ≡ ok ready
unfolding prepared
ready-ok = refl

entry-gathered : gathered "http" ready.0 ≡ some (object no_more)
unfolding prepared gathered
entry-gathered = refl

selected-KeepsHttp : All (KeepsHttp (object no_more) ready.1) (selected registry options)
unfolding selected
selected-KeepsHttp = (λ s h. h, (λ s h. h, tt))

scan_completes_example :
    (r : Report) × (scan registry gathers [] options context none_yet ≡ ok r)
    × IsCounted (selected registry options) r
scan_completes_example =
    scan_completes registry gathers [] options context none_yet ready (object no_more) options-ok
      refl ready-ok entry-gathered selected-KeepsHttp selected-Readable

-- a scan whose entry page could not be gathered raises what the gatherer raised
scan-http_test :
    scan registry gatherers [] options context none_yet
    ≡ err
        (not_gathered (unavailable (record { name = "http"; kind = "Timeout"; message = "http" })))
unfolding scan
scan-http_test = refl

abbrev finding : CheckResult
finding = record {
  id = "CORE-SECURITY-001";
  title = "";
  category = Category.security;
  status = CheckStatus.warn;
  severity = Severity.low;
  confidence = Confidence.high;
  summary = "";
  evidence = object no_more;
  why_it_matters = "";
  limitations = "";
  cloud_extension = "";
  remediation = "";
  experimental = false;
  check_version = "1.0";
  family_id = "SEC-WEB-001";
  verification_mode = "PASSIVE_OBSERVED";
  security_domain = "web";
  fix_owner = "backend";
  security_tags = [];
  owasp_agentic = [];
}
