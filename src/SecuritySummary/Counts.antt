-- ===== src/SecuritySummary/Counts.antt =====
-- What the counts of the security summary are.
use scovant_core.Prelude.{
  ℕ, ◌+◌, String, ◌≡◌, Bool, ◌&&◌, Option, none, some, List, [], length, keep, str_eq, lookup,
}
use scovant_core.Models.{CheckResult, CheckStatus, Severity, is_defect}
use scovant_core.SecuritySummary.{
  same_severity, same_status, SecuritySummary, domain_of, or_zero, Tallies,
}

abbrev pub is_defect_of : Severity → CheckResult → Bool
is_defect_of s f = is_defect f.status && same_severity f.severity s

abbrev pub has_status_in : String → CheckStatus → CheckResult → Bool
has_status_in d s f = str_eq (domain_of f) d && same_status f.status s

-- the number that the dictionary of domains has
abbrev pub count_in : String → CheckStatus → List (String × (CheckStatus → ℕ)) → ℕ
count_in d s m = or_zero (lookup d m) s

record IsTally (fs : List CheckResult) (t u : Tallies) : Type 0 where
  pub severities :
      (s : Severity) → u.by_severity s ≡ t.by_severity s + length (keep (is_defect_of s) fs)
  pub statuses :
      (d : String) (s : CheckStatus)
      → count_in d s u.by_domain ≡ count_in d s t.by_domain + length (keep (has_status_in d s) fs)

abbrev pub IsCountOf : List CheckResult → Option (Severity → ℕ) → Type 0
IsCountOf sec none = sec ≡ []
IsCountOf sec (some counts) = (s : Severity) → counts s ≡ length (keep (is_defect_of s) sec)

pub record IsSummary (sec : List CheckResult) (u : SecuritySummary) : Type 0 where
  pub severities : IsCountOf sec u.findings_by_severity
  pub statuses :
      (d : String) (s : CheckStatus)
      → count_in d s u.by_domain ≡ length (keep (has_status_in d s) sec)
