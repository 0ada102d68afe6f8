-- ===== src/Envelope/Mapped.antt =====
-- When an envelope is accepted, and what the mapping of modes gives it.
use scovant_core.Prelude.{◌≡◌, refl, ◌↔◌, false, not, ◌&&◌, is_none, ok, raised, raised_last}
use scovant_core.Envelope.{
  Environment, ModeName, is_sandbox, is_synthetic, map_verification_mode, EvidenceEnvelope, no_rule,
  is_defective, invariants,
}

pub record IsAccepted (e : EvidenceEnvelope) : Type 0 where
  pub rule : (e.scored && no_rule e.rule_id) ≡ false
  pub sandboxed : (is_synthetic e.verification_mode && not (is_sandbox e.environment)) ≡ false
  pub owned : (is_defective e.status && is_none e.fix_owner) ≡ false

invariants_accept : (e : EvidenceEnvelope) → (invariants e ≡ ok tt) ↔ IsAccepted e
unfolding invariants
invariants_accept e = (
  λ h.
      let (rule, h') = raised (e.scored && no_rule e.rule_id) _ h in
      let (sandboxed, h'') =
        raised (is_synthetic e.verification_mode && not (is_sandbox e.environment)) _ h' in
      record { rule = rule; sandboxed = sandboxed; owned = raised_last _ _ h'' },
  λ a. rw (a.rule, a.sandboxed, a.owned) refl,
)

-- the envelope of evidence that is known under an older mode name
abbrev pub mapped : ModeName → EvidenceEnvelope → EvidenceEnvelope
mapped name e = record e { verification_mode = map_verification_mode name e.environment }

mapped_sandboxed :
    (name : ModeName) (environment : Environment)
    → (is_synthetic (map_verification_mode name environment) && not (is_sandbox environment))
      ≡ false
unfolding map_verification_mode
mapped_sandboxed ModeName.declared environment = refl
mapped_sandboxed ModeName.passive_observed environment = refl
mapped_sandboxed ModeName.static_declared environment = refl
mapped_sandboxed ModeName.active_authorized Environment.public_site = refl
mapped_sandboxed ModeName.active_authorized Environment.production_read_only = refl
mapped_sandboxed ModeName.active_authorized Environment.sandbox = refl

-- An envelope whose mode comes from `map_verification_mode` at its own environment is accepted exactly
-- if a scored one names a rule and a WARN or FAIL names who fixes it: the mapping never yields
-- SYNTHETIC_AUTHORIZED outside a sandbox.
pub invariants-mapped :
    (name : ModeName) (e : EvidenceEnvelope)
    → (invariants (mapped name e) ≡ ok tt) ↔ (
        ((e.scored && no_rule e.rule_id) ≡ false)
        × ((is_defective e.status && is_none e.fix_owner) ≡ false))
invariants-mapped name e =
    let a = invariants_accept (mapped name e) in
    (
      λ h. ((a.0 h).rule, (a.0 h).owned),
      λ h.
          a.1 (record { rule = h.0; sandboxed = mapped_sandboxed name e.environment; owned = h.1 }),
    )
