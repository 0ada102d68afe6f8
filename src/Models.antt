-- ===== src/Models.antt =====
-- models.py: the enumerations and the records of a report.
use scovant_core.Prelude.{ℕ, String, Bool, true, false, List, ◌==◌}
use scovant_core.Prelude.Json.{Json}

pub data CheckStatus : Type 0 where
  pass warn fail na error : CheckStatus

pub data Confidence : Type 0 where
  high medium low : Confidence

pub data Severity : Type 0 where
  critical high medium low info : Severity

pub data Category : Type 0 where
  access machine interfaces trust operability security : Category

abbrev pub category_value : Category → String
category_value Category.access = "access"
category_value Category.machine = "machine"
category_value Category.interfaces = "interfaces"
category_value Category.trust = "trust"
category_value Category.operability = "operability"
category_value Category.security = "security"

abbrev category_number : Category → ℕ
category_number Category.access = 0
category_number Category.machine = 1
category_number Category.interfaces = 2
category_number Category.trust = 3
category_number Category.operability = 4
category_number Category.security = 5

-- `a == b` of two categories
abbrev pub same_category : Category → Category → Bool
same_category a b = category_number a == category_number b

abbrev pub is_security : Category → Bool
is_security Category.security = true
is_security _ = false

abbrev pub is_error_status : CheckStatus → Bool
is_error_status CheckStatus.error = true
is_error_status _ = false

-- `status in (FAIL, WARN)`
abbrev pub is_defect : CheckStatus → Bool
is_defect CheckStatus.fail = true
is_defect CheckStatus.warn = true
is_defect _ = false

-- an entry of `owasp_agentic`; its framework is one text for all
pub record OwaspEntry : Type 0 where
  pub id : String
  pub title : String
  pub relation : String

pub record CheckResult : Type 0 where
  pub id : String
  pub title : String
  pub category : Category
  pub status : CheckStatus
  pub severity : Severity
  pub confidence : Confidence
  pub summary : String
  pub evidence : Json
  pub why_it_matters : String
  pub limitations : String
  pub cloud_extension : String
  pub remediation : String
  pub experimental : Bool
  pub check_version : String
  pub family_id : String
  pub verification_mode : String
  pub security_domain : String
  pub fix_owner : String
  pub security_tags : List String
  pub owasp_agentic : List OwaspEntry
