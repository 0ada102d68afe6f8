-- ===== src/Checks/Degrade.antt =====
-- A check that raises degrades to ERROR: `run` gives a result whatever the body does.
use scovant_core.Prelude.{
  String, ◌≡◌, refl, inl, inr, true, false, some, List, Bool-cases, Result, ok, err,
}
use scovant_core.Prelude.Json.{Json, null}
use scovant_core.Models.{CheckResult, CheckStatus, Confidence, Severity, OwaspEntry}
use scovant_core.Owasp.{OwaspError, parse_standards}
use scovant_core.Context.{ScanContext}
use scovant_core.Evidence.{Store}
use scovant_core.Checks.Base.{
  CheckRaised, evidence_unavailable, other, CoreCheck, applicable, filled, not_applicable_text,
  result, na, error, handled, or_handled, run,
}

-- the result of a check that gave no verdict of its own
pub record IsOwn (c : CoreCheck) (status : CheckStatus) (r : CheckResult) : Type 0 where
  pub id : r.id ≡ c.id
  pub category : r.category ≡ c.category
  pub status_is : r.status ≡ status
  pub severity : r.severity ≡ Severity.info

Gives : CoreCheck → CheckStatus → Result OwaspError CheckResult → Type 0
Gives c status answer = (r : CheckResult) × (answer ≡ ok r) × IsOwn c status r

module _ (c : CoreCheck) {es : List OwaspEntry}
    (readable : parse_standards c.standards ≡ ok es) where
  result-Gives :
      (status : CheckStatus) (summary : String) (evidence : Json) (confidence : Confidence)
      (remediation : String)
      → Gives c status
          (result c status summary evidence confidence (some Severity.info) remediation)
  unfolding Gives result
  result-Gives status summary evidence confidence remediation = (
    filled c status summary evidence confidence (some Severity.info) remediation es,
    rw readable refl,
    record { id = refl; category = refl; status_is = refl; severity = refl },
  )

  handled-Gives : (e : CheckRaised) → Gives c CheckStatus.error (handled c e)
  unfolding handled error
  handled-Gives (evidence_unavailable e) = result-Gives CheckStatus.error _ _ Confidence.low ""
  handled-Gives (other e) = result-Gives CheckStatus.error _ _ Confidence.low ""

  -- The three ways in which a run ends.
  pub data Ended (store : Store) (ctx : ScanContext) (r : CheckResult) : Type 0 where
    skipped : applicable c ctx ≡ false → IsOwn c CheckStatus.na r → Ended store ctx r
    degraded :
        (e : CheckRaised)
        → applicable c ctx ≡ true
        → (c.evaluate store ctx).answer ≡ err e
        → IsOwn c CheckStatus.error r
        → Ended store ctx r
    judged : applicable c ctx ≡ true → (c.evaluate store ctx).answer ≡ ok r → Ended store ctx r

  ends :
      (store : Store) (ctx : ScanContext) (answer : Result CheckRaised CheckResult)
      → applicable c ctx ≡ true
      → (c.evaluate store ctx).answer ≡ answer
      → (r : CheckResult) × (or_handled c answer ≡ ok r) × Ended store ctx r
  unfolding Gives
  ends store ctx (ok r) a h = (r, refl, judged a h)
  ends store ctx (err e) a h = let (r, p, q) = handled-Gives e in (r, p, degraded e a h q)

  -- A check whose declared standards can be read gives a result in every run: NA with severity INFO
  -- where it does not apply to the profile; where it applies, ERROR with severity INFO if its body
  -- raised, and else the body's own result. NA and ERROR stand under its own id and category.
  pub run-Ended :
      (store : Store) (ctx : ScanContext)
      → (r : CheckResult) × ((run c store ctx).1 ≡ ok r) × Ended store ctx r
  unfolding run Gives na
  run-Ended store ctx = elim (Bool-cases (applicable c ctx)) [
    | inr a ↦
        let (r, p, q) =
          result-Gives CheckStatus.na (not_applicable_text ctx) null Confidence.high "" in
        (r, rw a p, skipped a q)
    | inl a ↦ let (r, p, q) = ends store ctx (c.evaluate store ctx).answer a refl in (r, rw a p, q)
  ]
