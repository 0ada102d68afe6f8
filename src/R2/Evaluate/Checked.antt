-- ===== src/R2/Evaluate/Checked.antt =====
-- The outcome of each row fits its rule's entry of the manifest.
use mathlib.Core.Path.{subst}
use scovant_core.Prelude.{
  String, ◌≡◌, refl, sym, ap, ◌∙◌, inl, inr, Bool, true, false, not, ◌&&◌, Option, none, some, List,
  [], ◌∷◌, any, is_empty, Bool-cases, Option-cases, str_eq, contains, Both, lookup, arith, ok,
}
use scovant_core.Prelude.Json.{Json, object, no_more}
use scovant_core.Capabilities.{Capabilities, Flag, gate, gated, gate_value, flag_of, code_flags}
use scovant_core.Rules.{CoreRule, MeasureCtx}
use scovant_core.R2.Outcome.{Outcome, OutcomeState, is_measured}
use scovant_core.R2.Manifest.{RuleSpec, is_page}
use scovant_core.R2.Score.Rows.{check_counts}
use scovant_core.R2.Technical.{
  because, at_gate, judged, domain_measured, domain_outcome, page_outcome, OutcomeRow,
  outcome_from_row, absence_codes, low_band_warn_codes, fails_or_warns, is_failing,
}
use scovant_core.R2.Technical.Pages.{page_outcome-IsVerdict}
use scovant_core.R2.Technical.Built.{core_spec}
use scovant_core.R2.Evaluate.{fired_on, see_pages, rule_outcome, rows_from, severity_name}
use scovant_core.R2.Evaluate.Total.{rule_outcome-Carries}

abbrev pub Passes : RuleSpec → Outcome → Type 0
Passes s o = check_counts s o ≡ ok tt

-- an outcome that is not measured passes with any entry, if it has no counts
unmeasured-Passes :
    (s : RuleSpec) (code : String) (state : OutcomeState) (reason : String)
    → is_measured state ≡ false
    → Passes s (because code state reason)
unfolding check_counts
unmeasured-Passes s code state reason h = elim (Bool-cases (is_page s.scope)) [
  | inl p ↦ rw (p, h) refl
  | inr p ↦ rw p refl
]

is_na :
    {reason : String} {hit : OutcomeState × String}
    → some (OutcomeState.na, reason) ≡ some hit
    → is_measured hit.0 ≡ false
is_na {reason} {hit} h =
    let same : (OutcomeState.na, reason) ≡ hit = cc in ap (λ x. is_measured x.0) (sym same)

value_unmeasured :
    (flag : Flag) (v : Option Bool) (hit : OutcomeState × String)
    → gate_value flag v ≡ some hit
    → is_measured hit.0 ≡ false
value_unmeasured flag none hit h = is_na h
value_unmeasured flag (some true) hit h = absurd cc
value_unmeasured flag (some false) hit h = is_na h

gated_unmeasured :
    (caps : Capabilities) (flag : Option Flag) (hit : OutcomeState × String)
    → gated caps flag ≡ some hit
    → is_measured hit.0 ≡ false
gated_unmeasured caps none hit h = absurd cc
gated_unmeasured caps (some flag) hit h = value_unmeasured flag (flag_of caps flag).value hit h

-- the states of a closed gate
gate_unmeasured :
    (code : String) (caps : Option Capabilities) (hit : OutcomeState × String)
    → gate code caps ≡ some hit
    → is_measured hit.0 ≡ false
unfolding gate
gate_unmeasured code none hit h = absurd cc
gate_unmeasured code (some caps) hit h = gated_unmeasured caps (lookup code code_flags) hit h

-- a domain outcome has no counts
abbrev pub HasNoCounts : Outcome → Type 0
HasNoCounts o = o.pages_measured ≡ none

pub no_counts-Passes :
    (s : RuleSpec) (o : Outcome) → is_page s.scope ≡ false → HasNoCounts o → Passes s o
unfolding check_counts
no_counts-Passes s o d n = rw (d, n) refl

judged-HasNoCounts :
    (code : String) (v : Option OutcomeState) (fired : Bool) → HasNoCounts (judged code v fired)
judged-HasNoCounts code none fired = refl
judged-HasNoCounts code (some s) fired = refl

measured-HasNoCounts :
    (code : String) (measure : Json → Option OutcomeState) (domain : Json) (fired some_pages : Bool)
    → HasNoCounts (domain_measured code measure domain fired some_pages)
measured-HasNoCounts code measure domain fired true = judged-HasNoCounts code (measure domain) fired
measured-HasNoCounts code measure domain fired false = refl

gated-HasNoCounts :
    (code : String) (g : Option (OutcomeState × String)) (o : Outcome)
    → HasNoCounts o
    → HasNoCounts (at_gate code (λ x. x) g o)
gated-HasNoCounts code none o h = h
gated-HasNoCounts code (some hit) o h = refl

first_of : (a b c : Bool) → (a && b && c) ≡ true → a ≡ true
first_of a b c h = ground arith

-- a warning passes where a failure does
warned :
    (s : RuleSpec) (o : Outcome) (state : OutcomeState)
    → is_failing state ≡ true
    → Passes s (record o { state = state })
    → Passes s (record o { state = OutcomeState.warn })
unfolding check_counts
warned s o OutcomeState.fail p h = h
warned s o _ p h = absurd cc

-- what a stored row is read as has the counts of the row, or none; and a failure may become a warning
from_row-Passes :
    (s : RuleSpec) (row : OutcomeRow) → Passes s row.outcome → Passes s (outcome_from_row row)
unfolding outcome_from_row check_counts
from_row-Passes s row h =
    let o = row.outcome in
    elim (Bool-cases (contains absence_codes o.rule_id && fails_or_warns o.state)) [
      | inl a ↦ rw a (unmeasured-Passes s o.rule_id OutcomeState.na "capability_absent" refl)
      | inr a ↦
          elim (Bool-cases (
            is_failing o.state
            && contains low_band_warn_codes o.rule_id
            && str_eq row.severity_seen "low")) [
              | inl b ↦ rw (a, b) (warned s o o.state (first_of _ _ _ b) h)
              | inr b ↦ rw (a, b) h
            ]
    ]

from_row-rule_id : (row : OutcomeRow) → (outcome_from_row row).rule_id ≡ row.outcome.rule_id
unfolding outcome_from_row
from_row-rule_id row =
    let o = row.outcome in
    elim (Bool-cases (contains absence_codes o.rule_id && fails_or_warns o.state)) [
      | inl a ↦ rw a refl
      | inr a ↦
          elim (Bool-cases (
            is_failing o.state
            && contains low_band_warn_codes o.rule_id
            && str_eq row.severity_seen "low")) [ inl b ↦ rw (a, b) refl | inr b ↦ rw (a, b) refl ]
    ]

module _ (domain : Json) (pages : List Json) (ctx : MeasureCtx) where
  abbrev page_result : CoreRule → Option Outcome
  page_result r =
      page_outcome r.code (some (λ p d. r.measure p d ctx)) pages domain (fired_on domain r pages)
        true ctx.capabilities

  page-Passes :
      (r : CoreRule) (o : Outcome)
      → r.is_domain ≡ false
      → page_result r ≡ some o
      → Passes (core_spec r) o
  unfolding page_outcome
  page-Passes r o d h = elim (Option-cases (gate r.code ctx.capabilities)) [
    | inl g ↦
        (page_outcome-IsVerdict r.code (λ p d. r.measure p d ctx) pages domain
            (fired_on domain r pages) true ctx.capabilities g h).checked
          (core_spec r) (rw d refl)
    | inr (hit, g) ↦
        let closed : page_result r ≡ some (because r.code hit.0 hit.1) = rw g refl in
        let both : some (because r.code hit.0 hit.1) ≡ some o = sym closed ∙ h in
        let same : because r.code hit.0 hit.1 ≡ o = cc in
        subst (Passes (core_spec r)) same (
          unmeasured-Passes (core_spec r) r.code hit.0 hit.1
            (gate_unmeasured r.code ctx.capabilities hit g))
  ]

  abbrev domain_result : CoreRule → Outcome
  domain_result r =
      domain_outcome r.code (some (λ d. r.measure (object no_more) d ctx)) domain
        (any (λ b. b) (fired_on domain r pages)) (not (is_empty pages)) ctx.capabilities

  domain-HasNoCounts : (r : CoreRule) → HasNoCounts (domain_result r)
  unfolding domain_outcome
  domain-HasNoCounts r = gated-HasNoCounts r.code (gate r.code ctx.capabilities) _ (
      measured-HasNoCounts r.code (λ d. r.measure (object no_more) d ctx) domain
        (any (λ b. b) (fired_on domain r pages)) (not (is_empty pages)))

  rule_outcome-Passes :
      (r : CoreRule) (o : Outcome)
      → rule_outcome domain pages ctx r ≡ some o
      → Passes (core_spec r) o
  unfolding rule_outcome
  rule_outcome-Passes r o h = elim (Bool-cases r.is_domain) [
    | inl d ↦
        let both : some (domain_result r) ≡ some o = rw d at h in
        let same : domain_result r ≡ o = cc in
        no_counts-Passes (core_spec r) o (rw d refl)
          (ap (λ x. x.pages_measured) (sym same) ∙ domain-HasNoCounts r)
    | inr d ↦ page-Passes r o d (rw d at h)
  ]

  -- the row of a rule, as Technical Readiness reads it
  pub record Fits (r : CoreRule) (row : OutcomeRow) : Type 0 where
    pub stored : row.outcome.rule_id ≡ r.code
    pub carries : (outcome_from_row row).rule_id ≡ r.code
    pub passes : Passes (core_spec r) (outcome_from_row row)

  pub rows_from-Fit :
      (rs : List CoreRule)
      → (rows : List OutcomeRow) × (rows_from domain pages ctx rs ≡ some rows) × Both Fits rs rows
  unfolding rows_from
  rows_from-Fit [] = ([], refl, tt)
  rows_from-Fit (r ∷ rs) =
      let (o, p, id) = rule_outcome-Carries domain pages ctx r in
      let (rows, q, fit) = rows_from-Fit rs in
      let row : OutcomeRow = record {
        outcome = o;
        severity_seen = severity_name domain (see_pages domain r none pages);
      } in
      (
        row ∷ rows,
        rw (p, q) refl,
        (
          record {
            stored = id;
            carries = from_row-rule_id row ∙ id;
            passes = from_row-Passes (core_spec r) row (rule_outcome-Passes r o p);
          },
          fit,
        ),
      )
