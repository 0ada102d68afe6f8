-- ===== src/Engine.antt =====
-- engine.py: the selection of the checks, the run, and what the report counts. The registered checks
-- and the gatherers are parameters.
pub mod Selection
pub mod Completes
use scovant_core.Prelude.{
  ℕ, ◌-◌, String, Bool, true, false, not, ◌&&◌, ◌||◌, Option, none, some, List, [], ◌∷◌, ◌++◌, map,
  any, keep, length, is_empty, if◌then◌else◌, str_eq, str_leb, contains, upper, lower, lookup,
  Result, ok, err, ◌>>=◌, ◌>>◌, raise_if,
}
use scovant_core.Prelude.Sort.{sort_by}
use scovant_core.Prelude.Json.{Json, null}
use scovant_core.Models.{Category, CheckResult, category_value, is_security, is_error_status}
use scovant_core.Owasp.{OwaspError}
use scovant_core.Context.{ScanOptions, ScanContext}
use scovant_core.Evidence
use scovant_core.Evidence.{Store, Ran, GatherError, Unavailable, no_gatherer, get, try_get}
use scovant_core.Profiles.{page_signals, resolve_profile, resolved}
use scovant_core.Rules.Python.{PyError}
use scovant_core.Checks.Base.{CoreCheck, run}
use scovant_core.SecuritySummary.{SecuritySummary, build_security_summary}

-- `UnknownSelector`, with its token
pub data UnknownSelector : Type 0 where
  unknown_selector : String → UnknownSelector

-- `_match` for one token of the selection
abbrev pub matches_token : CoreCheck → String → Bool
matches_token c s = str_eq (upper s) c.id || str_eq (lower s) (category_value c.category)

-- `_match`
abbrev pub matches : CoreCheck → List String → Bool
matches c sel = any (matches_token c) sel

abbrev pub ids_of : List CoreCheck → List String
ids_of checks = map (λ c. c.id) checks

abbrev pub categories_of : List CoreCheck → List String
categories_of checks = map (λ c. category_value c.category) checks

-- the loop of `validate_selectors`
unfoldable pub validate_tokens : List CoreCheck → List String → Result UnknownSelector (Unit {0})
unfolding upper lower
validate_tokens checks [] = ok tt
validate_tokens checks (token ∷ tokens) = do
  raise_if
      (not (contains (ids_of checks) (upper token))
        && not (contains (categories_of checks) (lower token)))
      (unknown_selector token)
  validate_tokens checks tokens

-- `validate_selectors`
unfoldable pub validate_selectors : List CoreCheck → ScanOptions → Result UnknownSelector (Unit {0})
unfolding validate_tokens
validate_selectors checks o = validate_tokens checks (o.include ++ o.exclude)

-- `_include_filtered`
unfoldable pub include_filtered : List CoreCheck → ScanOptions → List CoreCheck
unfolding upper lower
include_filtered checks o = keep (λ c. is_empty o.include || matches c o.include) checks

-- `_selected`
unfoldable pub selected : List CoreCheck → ScanOptions → List CoreCheck
unfolding include_filtered
selected checks o =
    keep (λ c. not (not (is_empty o.exclude) && matches c o.exclude)) (include_filtered checks o)

pub data ScanScope : Type 0 where
  custom canonical : ScanScope

-- `scan_scope`
unfoldable pub scan_scope : ScanOptions → ScanScope
scan_scope o =
    if not (is_empty o.include) || not (is_empty o.exclude) || o.experimental
    then ScanScope.custom
    else ScanScope.canonical

-- `c.run(store, ctx) for c in ...`: the store goes from check to check
unfoldable pub run_checks :
    ScanContext → Store → List CoreCheck → Store × Result OwaspError (List CheckResult)
unfolding run
run_checks ctx store [] = (store, ok [])
run_checks ctx store (c ∷ cs) =
    let first = run c store ctx in
    let rest = run_checks ctx first.0 cs in (rest.0, do r ← first.1; rs ← rest.1; ok (r ∷ rs))

abbrev pub by_id : CheckResult → CheckResult → Bool
by_id a b = str_leb a.id b.id

abbrev pub is_error_result : CheckResult → Bool
is_error_result r = is_error_status r.status

abbrev pub is_readiness : CheckResult → Bool
is_readiness r = not (is_security r.category)

-- `error_count` and the two counts that follow it
unfoldable pub error_count : List CheckResult → ℕ
error_count results = length (keep is_error_result results)

unfoldable pub readiness_error_count : List CheckResult → ℕ
unfolding error_count
readiness_error_count results = error_count (keep is_readiness results)

unfoldable pub security_error_count : List CheckResult → ℕ
unfolding error_count readiness_error_count
security_error_count results = error_count results - readiness_error_count results

-- `set(xs) - set(ys)`, sorted
abbrev distinct : List String → List String
distinct [] = []
distinct (x ∷ xs) = let rest = distinct xs in if contains rest x then rest else x ∷ rest

-- `included_ids`, `selected_ids` and `excluded_ids`
unfoldable pub included_ids : List CoreCheck → ScanOptions → List String
unfolding include_filtered sort_by
included_ids checks o = sort_by str_leb (ids_of (include_filtered checks o))

unfoldable pub selected_ids : List CoreCheck → ScanOptions → List String
unfolding selected sort_by
selected_ids checks o = sort_by str_leb (ids_of (selected checks o))

unfoldable pub excluded_ids : List CoreCheck → ScanOptions → List String
unfolding included_ids selected_ids sort_by
excluded_ids checks o =
    sort_by str_leb
      (distinct (keep (λ i. not (contains (selected_ids checks o) i)) (included_ids checks o)))

-- the part of the report that the selection and the run decide
pub record Report : Type 0 where
  pub scan_id : String
  pub resolved_profile : String
  pub profile_confidence : ℕ
  pub findings : List CheckResult
  pub gather_errors : List String
  pub error_count : ℕ
  pub security_error_count : ℕ
  pub scope : ScanScope
  pub included_checks : List String
  pub excluded_checks : List String
  pub security : SecuritySummary

pub data ScanError : Type 0 where
  bad_selector : UnknownSelector → ScanError
  bad_site_type : String → ScanError
  bad_standard : OwaspError → ScanError
  bad_evidence : PyError → ScanError
  not_gathered : Unavailable → ScanError

abbrev pub lift {ℓ} : {E : Type 0} {A : Type ℓ} → (E → ScanError) → Result E A → Result ScanError A
lift f (ok a) = ok a
lift f (err e) = err (f e)

abbrev pub known_site_type : List String → Option String → Result ScanError (Unit {0})
known_site_type types none = ok tt
known_site_type types (some t) = raise_if (not (contains types t)) (bad_site_type t)

-- the answer of `try_get`, `null` where the evidence could not be gathered; a name without a gatherer
-- is a `KeyError`
abbrev pub or_key_error : String → Option (Option Json) → Result ScanError Json
or_key_error name none = err (not_gathered (no_gatherer name))
or_key_error name (some none) = ok null
or_key_error name (some (some d)) = ok d

module _ (checks : List CoreCheck) (gatherers : String → Option (Store → Ran))
    (site_types : List String) where
  -- `apply_profile` where the profile is not given: it gathers the evidence that it reads
  unfoldable pub detected : ScanContext → Store → Result ScanError (Store × ScanContext)
  unfolding try_get page_signals resolve_profile
  detected ctx store = do
    let pages = try_get gatherers "pages" store
    given ← or_key_error "pages" pages.1
    seen ← lift bad_evidence (page_signals given)
    let openapi = try_get gatherers "openapi" pages.0
    described ← or_key_error "openapi" openapi.1
    profile ← lift bad_evidence (resolve_profile seen described)
    ok (openapi.0, resolved ctx profile)

  -- the store and the context on which the checks run: `try_get("http")`, then `apply_profile`
  unfoldable pub prepared :
      ScanOptions → ScanContext → Store → Result ScanError (Store × ScanContext)
  unfolding detected
  prepared o ctx store = do
    let http = try_get gatherers "http" store
    entry ← or_key_error "http" http.1
    (if str_eq o.profile "auto"
        then detected ctx http.0
        else ok (http.0, resolved ctx (o.profile, 100)))

  abbrev pub reported :
      ScanOptions → ScanContext → List (String × GatherError) → List CheckResult → Report
  reported o ctx errors results = record {
    scan_id = ctx.scan_id;
    resolved_profile = ctx.resolved_profile;
    profile_confidence = ctx.profile_confidence;
    findings = results;
    gather_errors = sort_by str_leb (map (λ e. e.0) errors);
    error_count = error_count results;
    security_error_count = security_error_count results;
    scope = scan_scope o;
    included_checks = if is_empty o.include then [] else included_ids checks o;
    excluded_checks = if is_empty o.exclude then [] else excluded_ids checks o;
    security = build_security_summary results;
  }

  -- `scan`, without the Technical Readiness pass and the metric on the policy of robots.txt. The evidence
  -- "http" is asked for again when the checks have run, by a `get` that raises what gathering it raised.
  unfoldable pub scan : ScanOptions → ScanContext → Store → Result ScanError Report
  unfolding validate_selectors selected run_checks error_count security_error_count scan_scope
      included_ids excluded_ids build_security_summary prepared sort_by get
  scan o ctx store = do
    lift bad_selector (validate_selectors checks o)
    known_site_type site_types o.site_type
    ready ← prepared o ctx store
    let ran = run_checks ready.1 ready.0 (selected checks o)
    results ← lift bad_standard ran.1
    http ← lift not_gathered (get gatherers "http" ran.0).answer
    ok (reported o ready.1 ran.0.errors (sort_by by_id results))
