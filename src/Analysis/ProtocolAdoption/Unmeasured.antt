-- ===== src/Analysis/ProtocolAdoption/Unmeasured.antt =====
-- A check that measured nothing says nothing of a protocol.
use scovant_core.Prelude.{
  String, ◌≡◌, refl, sym, ap, ◌∙◌, ◌⊎◌, inl, inr, Bool, false, Option, none, some, List, [], ◌∷◌,
  ◌++◌, map, any, Bool-cases, str_eq, eq_refl, lookup, insert, lookup-insert, or_false, ok, err,
  >>=-eq-ok,
}
use scovant_core.Prelude.Json.{Json, null}
use scovant_core.Models.{CheckResult, CheckStatus, Confidence, Severity}
use scovant_core.Owasp.{parse_standards}
use scovant_core.Context.{ScanContext}
use scovant_core.Evidence.{Store}
use scovant_core.Checks.Base.{
  CoreCheck, CheckRaised, evidence_unavailable, other, applicable, filled, result, error,
  not_applicable_text, na, run, handled,
}
use scovant_core.Analysis.ProtocolAdoption.{
  Adoption, not_checked, ProtocolRow, adoption_map, adoption_state, results_by_id, validity_of,
  state_of, adopt_each, protocol_adoption,
}

-- the states of all rows
each_state : List (String × CheckResult) → List (String × ProtocolRow) → List (String × Adoption)
each_state known rows = map (λ entry. (entry.0, state_of known entry.1)) rows

adopted :
    (findings : List CheckResult)
    → protocol_adoption findings ≡ some (each_state (results_by_id [] findings) adoption_map)
unfolding protocol_adoption adopt_each each_state
adopted findings = refl

state_or_none : List (String × CheckResult) → Option ProtocolRow → Option Adoption
state_or_none known none = none
state_or_none known (some r) = some (state_of known r)

lookup-each_state :
    (known : List (String × CheckResult)) (rows : List (String × ProtocolRow)) (proto : String)
    → lookup proto (each_state known rows) ≡ state_or_none known (lookup proto rows)
unfolding each_state state_or_none
lookup-each_state known [] proto = refl
lookup-each_state known ((p, q) ∷ rows) proto = elim (Bool-cases (str_eq p proto)) [
  | inl e ↦ rw e refl
  | inr e ↦ rw e (lookup-each_state known rows proto)
]

-- a later result has the id
abbrev pub has_id : String → List CheckResult → Bool
has_id k rs = any (λ r. str_eq r.id k) rs

lookup-results_by_id :
    (known : List (String × CheckResult)) (after : List CheckResult) (k : String)
    → has_id k after ≡ false
    → lookup k (results_by_id known after) ≡ lookup k known
unfolding results_by_id
lookup-results_by_id known [] k h = refl
lookup-results_by_id known (r ∷ after) k h =
    let (differs, later) = or_false (str_eq r.id k) (has_id k after) h in
    lookup-results_by_id (insert r.id r known) after k later
    ∙ lookup-insert r.id k r known
    ∙ rw differs refl

lookup-results_by_id-last :
    (known : List (String × CheckResult)) (before after : List CheckResult) (r : CheckResult)
    → has_id r.id after ≡ false
    → lookup r.id (results_by_id known (before ++ r ∷ after)) ≡ some r
unfolding results_by_id
lookup-results_by_id-last known [] after r h =
    lookup-results_by_id (insert r.id r known) after r.id h
    ∙ lookup-insert r.id r.id r known
    ∙ rw (eq_refl r.id) refl
lookup-results_by_id-last known (b ∷ before) after r h =
    lookup-results_by_id-last (insert b.id b known) before after r h

-- a result that says that nothing was measured: an error, or not applicable with no evidence
IsSilent : CheckResult → Type 0
IsSilent r = (r.status ≡ CheckStatus.error) ⊎ ((r.status ≡ CheckStatus.na) × (r.evidence ≡ null))

adoption_state-IsSilent :
    (r : CheckResult) (validity : List CheckResult) (key : Option String)
    → IsSilent r
    → adoption_state (some r) validity key ≡ not_checked
unfolding IsSilent
adoption_state-IsSilent r validity key (inl e) = rw e refl
adoption_state-IsSilent r validity key (inr (e, n)) = rw (e, n) refl

-- the check does not apply to the profile, or its body raised
abbrev IsUnmeasured : CoreCheck → Store → ScanContext → Type 0
IsUnmeasured c store ctx =
    (applicable c ctx ≡ false) ⊎ ((e : CheckRaised) × ((c.evaluate store ctx).answer ≡ err e))

module _ (c : CoreCheck) {r : CheckResult} where
  result-fields :
      (status : CheckStatus) (summary : String) (evidence : Json) (confidence : Confidence)
      (severity : Option Severity) (remediation : String)
      → result c status summary evidence confidence severity remediation ≡ ok r
      → (c.id ≡ r.id) × (status ≡ r.status) × (evidence ≡ r.evidence)
  unfolding result
  result-fields status summary evidence confidence severity remediation h =
      let (es, read, made) = >>=-eq-ok (parse_standards c.standards) _ h in
      let same : filled c status summary evidence confidence severity remediation es ≡ r = cc in
      (ap (λ x. x.id) same, ap (λ x. x.status) same, ap (λ x. x.evidence) same)

  error-IsSilent :
      (reason : String) (evidence : Json)
      → error c reason evidence ≡ ok r
      → (c.id ≡ r.id) × IsSilent r
  unfolding error IsSilent
  error-IsSilent reason evidence h =
      let (id, status, _) =
        result-fields CheckStatus.error _ evidence Confidence.low (some Severity.info) "" h in
      (id, inl (sym status))

  handled-IsSilent : (e : CheckRaised) → handled c e ≡ ok r → (c.id ≡ r.id) × IsSilent r
  unfolding handled
  handled-IsSilent (evidence_unavailable e) h = error-IsSilent _ _ h
  handled-IsSilent (other e) h = error-IsSilent _ _ h

  na-IsSilent :
      (summary : String) → na c summary null Confidence.high ≡ ok r → (c.id ≡ r.id) × IsSilent r
  unfolding na IsSilent
  na-IsSilent summary h =
      let (id, status, evidence) =
        result-fields CheckStatus.na summary null Confidence.high (some Severity.info) "" h in
      (id, inr (sym status, sym evidence))

  run-IsSilent :
      (store : Store) (ctx : ScanContext)
      → (run c store ctx).1 ≡ ok r
      → IsUnmeasured c store ctx
      → (c.id ≡ r.id) × IsSilent r
  unfolding run
  run-IsSilent store ctx h silent = elim (Bool-cases (applicable c ctx)) [
    | inr skipped ↦
        let gives : (run c store ctx).1 ≡ na c (not_applicable_text ctx) null Confidence.high =
          rw skipped refl in
        na-IsSilent (not_applicable_text ctx) (sym gives ∙ h)
    | inl applies ↦ elim silent [
      | inl skipped ↦ absurd cc
      | inr (e, raised) ↦
          let gives : (run c store ctx).1 ≡ handled c e = rw (applies, raised) refl in
          handled-IsSilent e (sym gives ∙ h)
    ]
  ]

-- A check that does not apply to the profile of the site, or whose evidence or body failed, leaves the
-- protocol of which it is the presence check "not_checked", never "absent": wherever its result stands
-- among the findings, with no later one of its id.
pub protocol_adoption-run :
    (c : CoreCheck) (store : Store) (ctx : ScanContext) (r : CheckResult)
    → (run c store ctx).1 ≡ ok r
    → (applicable c ctx ≡ false) ⊎ ((e : CheckRaised) × ((c.evaluate store ctx).answer ≡ err e))
    → (proto : String) (entry : ProtocolRow) → lookup proto adoption_map ≡ some entry
    → entry.presence ≡ c.id
    → (before after : List CheckResult) → has_id c.id after ≡ false
    → (out : List (String × Adoption)) × (protocol_adoption (before ++ r ∷ after) ≡ some out)
      × (lookup proto out ≡ some not_checked)
unfolding state_or_none
protocol_adoption-run c store ctx r ran silent proto entry listed owner before after last =
    let findings = before ++ r ∷ after in
    let known = results_by_id [] findings in
    let (id, quiet) = run-IsSilent c store ctx ran silent in
    let kept : lookup entry.presence known ≡ some r =
      ap (λ k. lookup k known) (owner ∙ id)
      ∙ lookup-results_by_id-last [] before after r (ap (λ k. has_id k after) (sym id) ∙ last) in
    let unchecked : state_of known entry ≡ not_checked =
      ap (λ o. adoption_state o (validity_of known entry.validity) entry.key) kept
      ∙ adoption_state-IsSilent r (validity_of known entry.validity) entry.key quiet in
    (
      each_state known adoption_map,
      adopted findings,
      lookup-each_state known adoption_map proto
          ∙ ap (state_or_none known) listed
          ∙ ap (λ a. some a) unchecked,
    )
