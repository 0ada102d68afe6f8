-- ===== src/Envelope.antt =====
-- envelope.py: the invariants of the evidence envelope, and the mapping of verification modes. The
-- fields that no invariant reads (ids, times, versions, evidence) are left out.
pub mod Mapped
mod Tests
use scovant_core.Prelude.{
  String, Bool, true, false, not, ◌&&◌, Option, none, some, if◌then◌else◌, str_eq, is_none, Result,
  ok, ◌>>◌, raise_if,
}

pub data VerificationMode : Type 0 where
  declared passive_observed active_safe synthetic_authorized : VerificationMode

pub data EnvelopeStatus : Type 0 where
  pass warn fail na error inconclusive not_measured : EnvelopeStatus

pub data Environment : Type 0 where
  public_site production_read_only sandbox : Environment

pub data FixOwner : Type 0 where
  frontend backend identity mcp edge_cdn devops content commerce security : FixOwner

-- the keys of `VERIFICATION_MODE_MAPPING`
pub data ModeName : Type 0 where
  declared passive_observed static_declared active_authorized : ModeName

-- `VERIFICATION_MODE_MAPPING`
abbrev pub mode_mapping : ModeName → VerificationMode
mode_mapping ModeName.declared = VerificationMode.declared
mode_mapping ModeName.passive_observed = VerificationMode.passive_observed
mode_mapping ModeName.static_declared = VerificationMode.declared
mode_mapping ModeName.active_authorized = VerificationMode.active_safe

abbrev pub is_active : ModeName → Bool
is_active ModeName.active_authorized = true
is_active _ = false

abbrev pub is_sandbox : Environment → Bool
is_sandbox Environment.sandbox = true
is_sandbox _ = false

abbrev pub is_synthetic : VerificationMode → Bool
is_synthetic VerificationMode.synthetic_authorized = true
is_synthetic _ = false

-- `map_verification_mode`
unfoldable pub map_verification_mode : ModeName → Environment → VerificationMode
map_verification_mode name environment =
    if is_active name && is_sandbox environment
    then VerificationMode.synthetic_authorized
    else mode_mapping name

pub record EvidenceEnvelope : Type 0 where
  pub verification_mode : VerificationMode
  pub status : EnvelopeStatus
  pub scored : Bool
  pub rule_id : Option String
  pub environment : Environment
  pub fix_owner : Option FixOwner

pub data EnvelopeError : Type 0 where
  scored_without_rule synthetic_outside_sandbox defect_without_owner : EnvelopeError

-- `not self.rule_id`
abbrev pub no_rule : Option String → Bool
no_rule none = true
no_rule (some s) = str_eq s ""

-- `status in ("WARN", "FAIL")`
abbrev pub is_defective : EnvelopeStatus → Bool
is_defective EnvelopeStatus.warn = true
is_defective EnvelopeStatus.fail = true
is_defective _ = false

-- `_invariants`
unfoldable pub invariants : EvidenceEnvelope → Result EnvelopeError (Unit {0})
invariants e = do
  raise_if (e.scored && no_rule e.rule_id) scored_without_rule
  raise_if (is_synthetic e.verification_mode && not (is_sandbox e.environment))
      synthetic_outside_sandbox
  raise_if (is_defective e.status && is_none e.fix_owner) defect_without_owner
