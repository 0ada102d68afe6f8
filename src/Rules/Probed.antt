-- ===== src/Rules/Probed.antt =====
-- When the evidence of a rule counts as measured.
use scovant_core.Prelude.{
  String, ◌≡◌, refl, ◌↔◌, inl, inr, Bool, true, false, not, ◌||◌, or_false, not-false, none, List,
  [], ◌∷◌, All, Bool-cases,
}
use scovant_core.Prelude.Json
use scovant_core.Prelude.Json.{Json, truthy, is_object, is_text}
use scovant_core.Rules.{MeasureCtx, is_defaulted, probe_keys, probe_measured}

-- a block that a probe filled: an object that is there, is no default, and whose request was answered
pub record Answered (domain : Json) (ctx : MeasureCtx) (key : String) : Type 0 where
  pub present : is_object (Json.get key domain) ≡ true
  pub probed : is_defaulted ctx.defaulted key ≡ false
  pub fetched : is_text "error" (Json.get "fetch_status" (Json.get key domain)) ≡ false

module _ (domain : Json) (ctx : MeasureCtx) where
  abbrev unanswered : String → Bool
  unanswered key =
      let block = Json.get key domain in
      not (is_object block)
      || is_defaulted ctx.defaulted key
      || is_text "error" (Json.get "fetch_status" block)

  unanswered-Answered : (key : String) → unanswered key ≡ false → Answered domain ctx key
  unanswered-Answered key h =
      let (h1, fetched) = or_false _ _ h in
      let (absent, probed) = or_false _ _ h1 in
      record { present = not-false _ absent; probed = probed; fetched = fetched }

  Answered-unanswered : (key : String) → Answered domain ctx key → unanswered key ≡ false
  Answered-unanswered key a = rw (a.present, a.probed, a.fetched) refl

  probe_keys-none :
      (keys : List String) → (probe_keys domain ctx keys ≡ none) ↔ All (Answered domain ctx) keys
  unfolding probe_keys
  probe_keys-none [] = (λ _. tt, λ _. refl)
  probe_keys-none (key ∷ keys) =
      let (into, back) = probe_keys-none keys in
      elim (Bool-cases (unanswered key)) [
        | inl e ↦ (
          λ h. let q = rw e at h in absurd cc,
          λ a. let q = Answered-unanswered key a.0 in absurd cc,
        )
        | inr e ↦ (λ h. (unanswered-Answered key e, into (rw e at h)), λ a. rw e (back a.1))
      ]

-- The test that a rule makes of its evidence: `probe_measured` lets it judge exactly if there is
-- evidence on the domain and each block that it names is an object, was not put there by default after
-- a failed probe, and does not report that its request never answered.
probe_measured-Answered :
    (domain : Json) (ctx : MeasureCtx) (keys : List String)
    → (probe_measured domain ctx keys ≡ none)
      ↔ ((truthy domain ≡ true) × All (Answered domain ctx) keys)
unfolding probe_measured
probe_measured-Answered domain ctx keys =
    let (into, back) = probe_keys-none domain ctx keys in
    elim (Bool-cases (truthy domain)) [
      | inl e ↦ (λ h. (e, into (rw e at h)), λ a. rw e (back a.1))
      | inr e ↦ (λ h. let q = rw e at h in absurd cc, λ a. absurd cc)
    ]
