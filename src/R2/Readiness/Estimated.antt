-- ===== src/R2/Readiness/Estimated.antt =====
-- What the block says of the result of `score_r2`.
use scovant_core.Prelude.{
  String, ◌≡◌, refl, ◌↔◌, ap, inl, inr, ◌⊎◌, Bool, true, false, ◌||◌, Option, none, some, List,
  Bool-cases, is_none, if◌then◌else◌, ok,
}
use scovant_core.Prelude.Float.{Float, IsMonotone}
use scovant_core.R2.Outcome.{Outcome}
use scovant_core.R2.Policy.{ScoringPolicy}
use scovant_core.R2.Manifest.{Manifest}
use scovant_core.R2.Score.Rating.{R2Result, Status, score_r2}
use scovant_core.R2.Score.Sound.{score_r2-IsSound}
use scovant_core.R2.Evaluate.{TechnicalRun}
use scovant_core.R2.Readiness.{
  EvidenceState, is_insufficient, no_number, technical_block, TechnicalReadiness,
}

or_true : (a b : Bool) → b ≡ true → (a || b) ≡ true
or_true true b h = refl
or_true false b h = h

insufficient_is : (s : Status) → is_insufficient s ≡ true → s ≡ Status.insufficient_evidence
insufficient_is Status.insufficient_evidence h = refl
insufficient_is Status.ok_status h = absurd cc
insufficient_is Status.degraded h = absurd cc

none_is : {A : Type 0} (o : Option A) → is_none o ≡ true → o ≡ none
none_is none h = refl
none_is (some a) h = absurd cc

no_number-unrated :
    {F : Type 0} (r : R2Result F)
    → ((r.status ≡ Status.insufficient_evidence) → r.rating ≡ none)
    → no_number r ≡ true
    → r.rating ≡ none
no_number-unrated r h e = elim (Bool-cases (is_insufficient r.status)) [
  | inl i ↦ h (insufficient_is r.status i)
  | inr i ↦ none_is r.rating (rw i at e)
]

-- no rating, and the number is not there
unrated-no_number : {F : Type 0} (r : R2Result F) → r.rating ≡ none → no_number r ≡ true
unrated-no_number r e = or_true _ _ (ap is_none e)

module _ {F : Type 0} where
  pub record IsEstimated (r : R2Result F) (b : TechnicalReadiness F) : Type 0 where
    pub state : (b.evidence_state ≡ EvidenceState.not_measured) ↔ (r.rating ≡ none)
    pub no_badge : r.badge ≡ none → b.badge ≡ none
    pub unrated : r.rating ≡ none → b.badge ≡ none
    pub badge : (b.badge ≡ none) ⊎ (b.badge ≡ some "estimated")

state_iff :
    (b : Bool)
    → (if b then EvidenceState.not_measured else EvidenceState.estimated)
      ≡ EvidenceState.not_measured
    → b ≡ true
state_iff true h = refl
state_iff false h = absurd cc

abbrev badge_if : Bool → Option String
badge_if none_given = if none_given then none else some "estimated"

badge_cases : (b : Bool) → (badge_if b ≡ none) ⊎ (badge_if b ≡ some "estimated")
badge_cases true = inl refl
badge_cases false = inr refl

-- For a number type with the laws of `IsMonotone`: where the result of a run is one that `score_r2`
-- returns, the block of Technical Readiness says "not measured" exactly when the result has no rating,
-- its badge is "estimated" or none, and it has none where the result has no badge or no rating.
pub technical_block-IsEstimated :
    {F : Type 0} ⦃fl : Float F⦄ (laws : IsMonotone F) (policy : ScoringPolicy F) (profile : String)
    (manifest : Manifest) (outcomes : List Outcome) (run : TechnicalRun F) (tokenizer : Bool)
    (defaulted : List String) (site_type origin : String)
    → score_r2 policy profile manifest outcomes ≡ ok run.result
    → IsEstimated run.result (technical_block tokenizer defaulted manifest run site_type origin)
unfolding technical_block
technical_block-IsEstimated laws policy profile manifest outcomes run tokenizer defaulted site_type
      origin h =
    let sound = score_r2-IsSound laws policy profile manifest outcomes h in
    record {
      state = (
        λ e. no_number-unrated run.result sound.unrated_iff.0 (state_iff (no_number run.result) e),
        λ e.
            ap (λ b. if b then EvidenceState.not_measured else EvidenceState.estimated)
              (unrated-no_number run.result e),
      );
      no_badge = λ e. ap badge_if (or_true (no_number run.result) _ (ap is_none e));
      unrated =
          λ e. ap (λ b. badge_if (b || is_none run.result.badge)) (unrated-no_number run.result e);
      badge = badge_cases (no_number run.result || is_none run.result.badge);
    }
