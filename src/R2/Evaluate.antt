-- ===== src/R2/Evaluate.antt =====
-- r2/evaluate.py: the registered rules on the pages of a scan, up to the rating. The rules are a
-- parameter. A page that is no dictionary is an empty one, and `_http_status` is taken from a page
-- before a rule evaluates it.
pub mod Total
pub mod Worst
pub mod Checked
pub mod Outcomes
mod Scored
pub mod Returns
mod Tests
use scovant_core.Prelude.{
  ℕ, String, Bool, true, false, not, ◌&&◌, ◌||◌, Option, none, some, List, [], ◌∷◌, map, any,
  is_empty, ltb, if◌then◌else◌, str_eq, str_leb, insert, lower, strip, keep, Result, ok, err, ◌>>=◌,
}
use scovant_core.Prelude.Sort.{sort_by}
use scovant_core.Prelude.Float.{Float}
use scovant_core.Prelude.Json.{Json, Fields, null, object, no_more, field, is_object}
use scovant_core.Models.{Severity}
use scovant_core.Rules.Python.{PyError}
use scovant_core.Capabilities.{Capabilities, derive_capabilities}
use scovant_core.Rules.{CoreRule, is_deprecated, Finding, MeasureCtx}
use scovant_core.R2.Outcome.{Outcome, OutcomeState}
use scovant_core.R2.Policy.{ScoringPolicy, public_policy}
use scovant_core.R2.Manifest.{Manifest, ManifestError}
use scovant_core.R2.Technical.Specs.{technical_manifest}
use scovant_core.R2.Score.Rows.{ScoreError}
use scovant_core.R2.Score.Rating.{R2Result, score_r2}
use scovant_core.R2.Technical.{
  domain_outcome, page_outcome, content_blocked, bot_protection_rule, OutcomeRow, outcome_from_row,
  technical_outcomes,
}

-- `_SEVERITY_RANK`
abbrev pub severity_rank : Severity → ℕ
severity_rank Severity.info = 0
severity_rank Severity.low = 1
severity_rank Severity.medium = 2
severity_rank Severity.high = 3
severity_rank Severity.critical = 4

abbrev without_field : String → Fields → Fields
without_field k no_more = no_more
without_field k (field j v fs) =
    let rest = without_field k fs in if str_eq j k then rest else field j v rest

-- `_without_status`
abbrev pub without_status : Json → Json
without_status (object fs) = object (without_field "_http_status" fs)
without_status page = page

abbrev pub dict_or : Json → Json → Json
dict_or page default = if is_object page then page else default

abbrev pub picked : Severity → Option Severity → Severity
picked rule none = rule
picked rule (some s) = s

-- the test of a finding's severity against the one seen
abbrev pub raise_to : Option Severity → Severity → Option Severity
raise_to none sev = some sev
raise_to (some seen) sev =
    if ltb (severity_rank seen) (severity_rank sev) then some sev else some seen

-- the loop over the findings of a page
unfoldable pub see_findings : Severity → Option Severity → List Finding → Option Severity
see_findings rule seen [] = seen
see_findings rule seen (f ∷ fs) = see_findings rule (raise_to seen (picked rule f.severity)) fs

-- a walled page, which Technical Readiness does not measure for the rule
abbrev pub is_skipped : CoreRule → Json → Bool
is_skipped r page =
    not r.is_domain && not (str_eq r.code bot_protection_rule) && content_blocked page

module _ (domain : Json) where
  abbrev pub findings_of : CoreRule → Json → List Finding
  findings_of r page = r.evaluate (without_status page) domain

  -- `fired_per_page`
  abbrev pub fired_on : CoreRule → List Json → List Bool
  fired_on r pages = map (λ p. not (is_empty (findings_of r p))) pages

  -- `seen`, over the pages
  unfoldable pub see_pages : CoreRule → Option Severity → List Json → Option Severity
  unfolding see_findings
  see_pages r seen [] = seen
  see_pages r seen (p ∷ ps) =
      see_pages r (if is_skipped r p then seen else see_findings r.severity seen (findings_of r p))
        ps

  abbrev pub severity_name : Option Severity → String
  severity_name none = ""
  severity_name (some Severity.info) = "info"
  severity_name (some Severity.low) = "low"
  severity_name (some Severity.medium) = "medium"
  severity_name (some Severity.high) = "high"
  severity_name (some Severity.critical) = "critical"

  module _ (pages : List Json) (ctx : MeasureCtx) where
    -- the outcome of one rule; `none` is the `ValueError` that `page_outcome` cannot raise here, since
    -- there is one Boolean for each page
    unfoldable pub rule_outcome : CoreRule → Option Outcome
    unfolding domain_outcome page_outcome
    rule_outcome r =
        if r.is_domain
        then some (
            domain_outcome r.code (some (λ d. r.measure (object no_more) d ctx)) domain
              (any (λ b. b) (fired_on r pages)) (not (is_empty pages)) ctx.capabilities)
        else page_outcome r.code (some (λ p d. r.measure p d ctx)) pages domain (fired_on r pages)
            true ctx.capabilities

    abbrev pub row_of : CoreRule → Option Outcome → Option OutcomeRow
    row_of r none = none
    row_of r (some o) =
        some (record { outcome = o; severity_seen = severity_name (see_pages r none pages) })

    abbrev pub cons_row : Option OutcomeRow → Option (List OutcomeRow) → Option (List OutcomeRow)
    cons_row (some x) (some xs) = some (x ∷ xs)
    cons_row _ _ = none

    -- the loop over the rules, in their order
    unfoldable pub rows_from : List CoreRule → Option (List OutcomeRow)
    unfolding rule_outcome see_pages
    rows_from [] = some []
    rows_from (r ∷ rs) = cons_row (row_of r (rule_outcome r)) (rows_from rs)

abbrev pub ordered_rules : List CoreRule → List CoreRule
ordered_rules rules = keep (λ r. not (is_deprecated r.maturity)) rules

abbrev pub by_code : CoreRule → CoreRule → Bool
by_code a b = str_leb a.code b.code

abbrev pub clean_pages : List Json → List Json
clean_pages pages = map (λ p. dict_or p (object no_more)) pages

abbrev pub clean_domain : Json → Json
clean_domain domain = dict_or domain null

-- what `technical_readiness` raises
pub data ReadinessError : Type 0 where
  zip_lengths : ReadinessError
  unreadable : PyError → ReadinessError
  not_a_manifest : ManifestError → ReadinessError
  not_scored : ScoreError → ReadinessError

abbrev pub or_raise {ℓ} :
    {E A : Type ℓ} → (E → ReadinessError) → Result E A → Result ReadinessError A
or_raise raises (err e) = err (raises e)
or_raise raises (ok a) = ok a

abbrev pub rows_or_raise : Option (List OutcomeRow) → Result ReadinessError (List OutcomeRow)
rows_or_raise none = err zip_lengths
rows_or_raise (some rows) = ok rows

-- `rule_rows`
unfoldable pub rule_rows :
    (Json → String)
    → List CoreRule
    → List Json
    → Json
    → String
    → Option (List String)
    → Result ReadinessError (List OutcomeRow)
unfolding rows_from derive_capabilities sort_by
rule_rows show rules pages domain site_category defaulted = do
  let d = clean_domain domain
  let ps = clean_pages pages
  caps ← or_raise unreadable (derive_capabilities show site_category ps d)
  let ctx : MeasureCtx = record {
    site_category = some site_category;
    defaulted = defaulted;
    capabilities = some caps;
  }
  rows_or_raise (rows_from d ps ctx (sort_by by_code (ordered_rules rules)))

-- `{row["rule_id"]: outcome_from_row(row) for row in rows}`
unfoldable pub index_rows : List (String × Outcome) → List OutcomeRow → List (String × Outcome)
unfolding outcome_from_row
index_rows by_id [] = by_id
index_rows by_id (row ∷ rows) =
    index_rows (insert row.outcome.rule_id (outcome_from_row row) by_id) rows

pub record TechnicalRun (F : Type 0) : Type 0 where
  pub result : R2Result F
  pub outcomes : List Outcome
  pub capabilities : Capabilities

abbrev pub profile_or : String → String
profile_or site_type = if str_eq site_type "" then "other" else site_type

-- `technical_readiness`; `score_r2` itself strips and lowers the profile
module _ {F : Type 0} ⦃fl : Float F⦄ where
  unfoldable pub rated :
      Manifest
      → List (String × Outcome)
      → String
      → Capabilities
      → Result ScoreError (TechnicalRun F)
  unfolding technical_outcomes score_r2 sort_by
  rated manifest by_id site_type caps = do
    let outcomes = technical_outcomes by_id manifest
    result ← score_r2 public_policy (profile_or site_type) manifest outcomes
    ok (record {
      result = result;
      outcomes = sort_by (λ a b. str_leb a.rule_id b.rule_id) outcomes;
      capabilities = caps;
    })

  unfoldable pub technical_readiness :
      (Json → String)
      → List CoreRule
      → List Json
      → Json
      → String
      → Option (List String)
      → Result ReadinessError (TechnicalRun F)
  unfolding rule_rows rated index_rows technical_manifest derive_capabilities
  technical_readiness show rules pages domain site_type defaulted = do
    rows ← rule_rows show rules pages domain site_type defaulted
    manifest ← or_raise not_a_manifest (technical_manifest rules)
    caps ←
        or_raise unreadable
          (derive_capabilities show site_type (clean_pages pages) (clean_domain domain))
    or_raise not_scored (rated manifest (index_rows [] rows) site_type caps)
