-- ===== src/Engine/Completes.antt =====
-- When a scan gives a report, and that the report's counts agree.
use scovant_core.Prelude.{
  suc, ◌+◌, String, ◌≡◌, refl, ◌∙◌, ap, inl, inr, Bool, ◌&&◌, Option, some, List, [], ◌∷◌, All,
  length, keep, Bool-cases, ok, arith,
}
use scovant_core.Prelude.Sort.{sort_by, length-sort_by}
use scovant_core.Models.{CheckResult, OwaspEntry, is_security}
use scovant_core.Owasp.{parse_standards}
use scovant_core.Context.{ScanOptions, ScanContext}
use scovant_core.Evidence.{Store, Ran, gathered, get, or_gather}
use scovant_core.Checks.Base.{CoreCheck, applicable, run}
use scovant_core.Prelude.Json.{Json}
use scovant_core.Checks.Degrade.{run-Ended}
use scovant_core.Engine.{
  selected, run_checks, is_error_result, error_count, readiness_error_count, security_error_count,
  Report, by_id, known_site_type, prepared, reported, validate_selectors, scan,
}

-- the declared standards of a check can be read
abbrev pub Readable : CoreCheck → Type 0
Readable c = (es : List OwaspEntry) × (parse_standards c.standards ≡ ok es)

run_checks-ok :
    (ctx : ScanContext) (store : Store) (cs : List CoreCheck)
    → All Readable cs
    → (rs : List CheckResult) × ((run_checks ctx store cs).1 ≡ ok rs) × (length rs ≡ length cs)
unfolding run_checks
run_checks-ok ctx store [] h = ([], refl, refl)
run_checks-ok ctx store (c ∷ cs) h =
    let (r, p, _) = run-Ended c h.0.1 store ctx in
    let (rs, q, n) = run_checks-ok ctx (run c store ctx).0 cs h.1 in
    (r ∷ rs, rw (p, q) refl, ap suc n)

abbrev pub is_security_error : CheckResult → Bool
is_security_error r = is_error_result r && is_security r.category

errors_split :
    (rs : List CheckResult)
    → error_count rs ≡ readiness_error_count rs + length (keep is_security_error rs)
unfolding error_count readiness_error_count
errors_split [] = refl
errors_split (r ∷ rs) =
    let rest = errors_split rs in
    elim (Bool-cases (is_security r.category)) [
      | inl s ↦ elim (Bool-cases (is_error_result r)) [
        | inl e ↦ rw (s, e) (omega (arith, rest))
        | inr e ↦ rw (s, e) rest
      ]
      | inr s ↦ elim (Bool-cases (is_error_result r)) [
        | inl e ↦ rw (s, e) (omega (arith, rest))
        | inr e ↦ rw (s, e) rest
      ]
    ]

pub record IsCounted (chosen : List CoreCheck) (r : Report) : Type 0 where
  pub one_each : length r.findings ≡ length chosen
  pub errors : r.error_count ≡ readiness_error_count r.findings + r.security_error_count
  pub security_errors : r.security_error_count ≡ length (keep is_security_error r.findings)

security_errors_are :
    (rs : List CheckResult)
    → (error_count rs ≡ readiness_error_count rs + security_error_count rs)
      × (security_error_count rs ≡ length (keep is_security_error rs))
unfolding security_error_count
security_errors_are rs = (omega (arith, errors_split rs), omega (arith, errors_split rs))

-- a check that leaves the evidence "http" in the store
abbrev pub KeepsHttp : Json → ScanContext → CoreCheck → Type 0
KeepsHttp d ctx c =
    (s : Store) → gathered "http" s ≡ some d → gathered "http" (c.evaluate s ctx).store ≡ some d

run-KeepsHttp :
    (d : Json) (ctx : ScanContext) (c : CoreCheck) (s : Store)
    → KeepsHttp d ctx c
    → gathered "http" s ≡ some d
    → gathered "http" (run c s ctx).0 ≡ some d
unfolding run
run-KeepsHttp d ctx c s keeps h = elim (Bool-cases (applicable c ctx)) [
  | inl e ↦ rw e (keeps s h)
  | inr e ↦ rw e h
]

run_checks-keep :
    (d : Json) (ctx : ScanContext) (s : Store) (cs : List CoreCheck)
    → All (KeepsHttp d ctx) cs
    → gathered "http" s ≡ some d
    → gathered "http" (run_checks ctx s cs).0 ≡ some d
unfolding run_checks
run_checks-keep d ctx s [] keeps h = h
run_checks-keep d ctx s (c ∷ cs) keeps h =
    run_checks-keep d ctx (run c s ctx).0 cs keeps.1 (run-KeepsHttp d ctx c s keeps.0 h)

get-gathered :
    (gatherers : String → Option (Store → Ran)) (name : String) (s : Store) (d : Json)
    → gathered name s ≡ some d
    → (get gatherers name s).answer ≡ ok d
unfolding get gathered
get-gathered gatherers name s d h = ap (λ o. (or_gather gatherers name s o).answer) h

module _ (checks : List CoreCheck) (gatherers : String → Option (Store → Ran))
    (site_types : List String) where
  -- A scan gives a report whatever its checks raise, if its selectors are valid, its site type is known,
  -- its preparation (the first gathering and the profile) raises nothing and has gathered the evidence
  -- "http", which no selected check takes out of the store, and the selected checks declare standards
  -- that can be read. The report has one finding for each selected check; its error count is the sum
  -- of the errors outside the category SECURITY and of its security error count; and this is the
  -- number of errors in SECURITY.
  pub scan_completes :
      (o : ScanOptions) (ctx : ScanContext) (store : Store) (ready : Store × ScanContext)
      (http : Json)
      → validate_selectors checks o ≡ ok tt
      → known_site_type site_types o.site_type ≡ ok tt
      → prepared checks gatherers site_types o ctx store ≡ ok ready
      → gathered "http" ready.0 ≡ some http
      → All (KeepsHttp http ready.1) (selected checks o)
      → All Readable (selected checks o)
      → (r : Report) × (scan checks gatherers site_types o ctx store ≡ ok r)
        × IsCounted (selected checks o) r
  unfolding scan
  scan_completes o ctx store ready http v t e entry keeps h =
      let chosen = selected checks o in
      let (rs, p, n) = run_checks-ok ready.1 ready.0 chosen h in
      let sorted = sort_by by_id rs in
      let after = (run_checks ready.1 ready.0 chosen).0 in
      let again =
        get-gathered gatherers "http" after http
          (run_checks-keep http ready.1 ready.0 chosen keeps entry) in
      let counts = security_errors_are sorted in
      (
        reported checks gatherers site_types o ready.1 after.errors sorted,
        rw (v, t, e, p, again) refl,
        record {
          one_each = length-sort_by by_id rs ∙ n;
          errors = counts.0;
          security_errors = counts.1;
        },
      )
