-- ===== src/Context.antt =====
-- context.py: the options of a scan and its context. The profile's confidence is in hundredths; the
-- time budget, a float that only the client reads, and the notes are left out.
use scovant_core.Prelude.{ℕ, String, Bool, Option, List}

pub record ScanOptions : Type 0 where
  pub profile : String
  pub max_pages : ℕ
  pub user_agent_suffix : Option String
  pub experimental : Bool
  pub include : List String
  pub exclude : List String
  pub allow_private_networks : Bool
  pub site_type : Option String
  pub technical : Bool

pub record ScanContext : Type 0 where
  pub input_url : String
  pub final_url : Option String
  pub origin : Option String
  pub resolved_profile : String
  pub profile_confidence : ℕ
  pub scan_id : String
