-- ===== src/Envelope/Tests.antt =====
-- The theorem on envelopes at one of a sandboxed call.
use scovant_core.Prelude.{◌≡◌, ◌↔◌, false, ◌&&◌, none, some, is_none, ok}
use scovant_core.Envelope.{
  VerificationMode, EnvelopeStatus, Environment, FixOwner, ModeName, EvidenceEnvelope, no_rule,
  is_defective, invariants,
}
use scovant_core.Envelope.Mapped.{mapped, invariants-mapped}

abbrev call : EvidenceEnvelope
call = record {
  verification_mode = VerificationMode.declared;
  status = EnvelopeStatus.fail;
  scored = false;
  rule_id = none;
  environment = Environment.sandbox;
  fix_owner = some FixOwner.backend;
}

invariants-mapped_example : (invariants (mapped ModeName.active_authorized call) ≡ ok tt) ↔ (
    ((call.scored && no_rule call.rule_id) ≡ false)
    × ((is_defective call.status && is_none call.fix_owner) ≡ false))
invariants-mapped_example = invariants-mapped ModeName.active_authorized call
