-- ===== src/SecuritySummary.antt =====
-- security_summary.py: the counts over the findings of the category SECURITY.
pub mod Counts
use scovant_core.Prelude.{
  ℕ, suc, ◌+◌, String, Bool, true, false, ◌||◌, Option, none, some, List, [], ◌∷◌, any, keep,
  is_empty, if◌then◌else◌, str_eq, ◌==◌, lookup, insert, set_default,
}
use scovant_core.Prelude.Json.{
  Json, Items, Fields, array, object, end, item, no_more, field, has_field,
}
use scovant_core.Models.{CheckResult, CheckStatus, Severity, is_security, is_defect}

abbrev severity_number : Severity → ℕ
severity_number Severity.critical = 0
severity_number Severity.high = 1
severity_number Severity.medium = 2
severity_number Severity.low = 3
severity_number Severity.info = 4

abbrev pub same_severity : Severity → Severity → Bool
same_severity a b = severity_number a == severity_number b

abbrev status_number : CheckStatus → ℕ
status_number CheckStatus.pass = 0
status_number CheckStatus.warn = 1
status_number CheckStatus.fail = 2
status_number CheckStatus.na = 3
status_number CheckStatus.error = 4

abbrev pub same_status : CheckStatus → CheckStatus → Bool
same_status a b = status_number a == status_number b

-- `_has_redaction`
unfoldable mutual
  pub has_redaction : Json → Bool
  has_redaction (object fs) = has_field "redacted" fs || redacted_field fs
  has_redaction (array xs) = redacted_item xs
  has_redaction _ = false

  redacted_item : Items → Bool
  redacted_item end = false
  redacted_item (item x xs) = has_redaction x || redacted_item xs

  redacted_field : Fields → Bool
  redacted_field no_more = false
  redacted_field (field k v fs) = has_redaction v || redacted_field fs

-- The two dictionaries of counts; the one by severity is `none` where it is left empty, and has every
-- severity where it is not, as each domain has every status.
pub record SecuritySummary : Type 0 where
  pub findings_by_severity : Option (Severity → ℕ)
  pub by_domain : List (String × (CheckStatus → ℕ))
  pub redaction_applied : Bool

abbrev pub domain_of : CheckResult → String
domain_of f = if str_eq f.security_domain "" then "unclassified" else f.security_domain

-- `counts[key] += 1`
abbrev pub count_severity : Severity → (Severity → ℕ) → Severity → ℕ
count_severity s counts k = if same_severity s k then counts k + 1 else counts k

abbrev pub count_status : CheckStatus → (CheckStatus → ℕ) → CheckStatus → ℕ
count_status s counts k = if same_status s k then counts k + 1 else counts k

abbrev pub or_zero : Option (CheckStatus → ℕ) → CheckStatus → ℕ
or_zero none k = 0
or_zero (some counts) k = counts k

-- the three loop variables
pub record Tallies : Type 0 where
  pub by_severity : Severity → ℕ
  pub by_domain : List (String × (CheckStatus → ℕ))
  pub redacted : Bool

abbrev pub no_tallies : Tallies
no_tallies = record { by_severity = λ s. 0; by_domain = []; redacted = false }

-- one turn of the loop
unfoldable pub add_finding : CheckResult → Tallies → Tallies
unfolding has_redaction
add_finding f t = record {
  by_severity =
      if is_defect f.status then count_severity f.severity t.by_severity else t.by_severity;
  by_domain =
      insert (domain_of f) (count_status f.status (or_zero (lookup (domain_of f) t.by_domain)))
        t.by_domain;
  redacted = t.redacted || has_redaction f.evidence;
}

unfoldable pub tally_findings : Tallies → List CheckResult → Tallies
unfolding add_finding
tally_findings t [] = t
tally_findings t (f ∷ fs) = tally_findings (add_finding f t) fs

abbrev pub in_security : CheckResult → Bool
in_security f = is_security f.category

abbrev pub summary_of : Tallies → SecuritySummary
summary_of t = record {
  findings_by_severity = some t.by_severity;
  by_domain = t.by_domain;
  redaction_applied = t.redacted;
}

-- `build_security_summary`; `SECURITY_NOT_TESTED` is a constant of it
unfoldable pub build_security_summary : List CheckResult → SecuritySummary
unfolding tally_findings
build_security_summary findings =
    let sec = keep in_security findings in
    if is_empty sec
    then record { findings_by_severity = none; by_domain = []; redaction_applied = false }
    else summary_of (tally_findings no_tallies sec)
