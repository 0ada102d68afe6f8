-- ===== src/R2/Score/Value.antt =====
-- The value of an outcome: its range, and how it moves with the state and the failed pages.
use scovant_core.Prelude.{
  ℕ, ◌≡◌, ◌≤◌, ◌<◌, false, Option, none, some, inl, inr, arith, ◌==◌, Bool-cases, ok,
}
use scovant_core.Prelude.Float.{Float, IsMonotone, ◌≼◌}
use scovant_core.R2.Outcome.{Outcome, OutcomeState, state_value, failed_exceeds, pages_consistent}
use scovant_core.R2.Manifest.{RuleSpec, is_page}
use scovant_core.R2.Score.Merge.{page_value, page_or_base, value}

-- `s` is no better than `t`: the same state, or both measured and in the order FAIL, WARN, PASS
abbrev pub StateLe : OutcomeState → OutcomeState → Type 0
StateLe OutcomeState.fail OutcomeState.fail = Unit
StateLe OutcomeState.fail OutcomeState.warn = Unit
StateLe OutcomeState.fail OutcomeState.pass = Unit
StateLe OutcomeState.warn OutcomeState.warn = Unit
StateLe OutcomeState.warn OutcomeState.pass = Unit
StateLe OutcomeState.pass OutcomeState.pass = Unit
StateLe OutcomeState.na OutcomeState.na = Unit
StateLe OutcomeState.not_measured OutcomeState.not_measured = Unit
StateLe OutcomeState.error OutcomeState.error = Unit
StateLe OutcomeState.blocked_by_policy OutcomeState.blocked_by_policy = Unit
StateLe OutcomeState.unknown OutcomeState.unknown = Unit
StateLe _ _ = ⊥

-- no more pages failed than before
abbrev pub FailedLe : Option ℕ → Option ℕ → Type 0
FailedLe none none = Unit
FailedLe (some n) (some m) = n ≤ m
FailedLe _ _ = ⊥

-- `t` is what became of the outcome `s` when its rule did at least as well on the same pages.
pub record Improves (s t : Outcome) : Type 0 where
  pub same_rule : s.rule_id ≡ t.rule_id
  pub same_key : s.evidence_key ≡ t.evidence_key
  pub same_pages : s.pages_measured ≡ t.pages_measured
  pub state : StateLe s.state t.state
  pub failed : FailedLe t.pages_failed s.pages_failed

not_exceeds :
    (o : Outcome)
    → pages_consistent o ≡ ok tt
    → failed_exceeds o.pages_measured o.pages_failed ≡ false
unfolding pages_consistent
not_exceeds o h = ground arith

module _ {F : Type 0} ⦃fl : Float F⦄ (laws : IsMonotone F) where
  pub zero-le-one : fl.of_ℕ 0 ≼ fl.of_ℕ 1
  zero-le-one = laws.of_ℕ_mono 0 1 (omega arith)

  pub state_value_bounds :
      (s : OutcomeState) → (fl.of_ℕ 0 ≼ state_value s) × (state_value s ≼ fl.of_ℕ 1)
  unfolding state_value
  state_value_bounds OutcomeState.pass = (zero-le-one, laws.le_refl (fl.of_ℕ 1))
  state_value_bounds OutcomeState.warn = (laws.half_nonneg, laws.half-le-one)
  state_value_bounds _ = (laws.le_refl (fl.of_ℕ 0), zero-le-one)

  pub state_value_mono : (s t : OutcomeState) → StateLe s t → state_value {F = F} s ≼ state_value t
  unfolding state_value
  state_value_mono OutcomeState.fail OutcomeState.fail h = laws.le_refl (fl.of_ℕ 0)
  state_value_mono OutcomeState.fail OutcomeState.warn h = laws.half_nonneg
  state_value_mono OutcomeState.fail OutcomeState.pass h = zero-le-one
  state_value_mono OutcomeState.warn OutcomeState.warn h = laws.le_refl (fl.lit 5 1)
  state_value_mono OutcomeState.warn OutcomeState.pass h = laws.half-le-one
  state_value_mono OutcomeState.pass OutcomeState.pass h = laws.le_refl (fl.of_ℕ 1)
  state_value_mono OutcomeState.na OutcomeState.na h = laws.le_refl (fl.of_ℕ 0)
  state_value_mono OutcomeState.not_measured OutcomeState.not_measured h = laws.le_refl (fl.of_ℕ 0)
  state_value_mono OutcomeState.error OutcomeState.error h = laws.le_refl (fl.of_ℕ 0)
  state_value_mono OutcomeState.blocked_by_policy OutcomeState.blocked_by_policy h =
      laws.le_refl (fl.of_ℕ 0)
  state_value_mono OutcomeState.unknown OutcomeState.unknown h = laws.le_refl (fl.of_ℕ 0)
  state_value_mono _ _ h = absurd h

  loss_nonneg : (base : F) → base ≼ fl.of_ℕ 1 → fl.of_ℕ 0 ≼ fl.sub (fl.of_ℕ 1) base
  loss_nonneg base h =
      rw (← laws.sub_self (fl.of_ℕ 1))
        (laws.sub_mono (fl.of_ℕ 1) (fl.of_ℕ 1) (fl.of_ℕ 1) base (laws.le_refl (fl.of_ℕ 1)) h)

  ratio_nonneg : (n m : ℕ) → 0 < m → fl.of_ℕ 0 ≼ fl.ratio n m
  ratio_nonneg n m h = rw (← laws.ratio-zero m h) (laws.ratio_mono 0 n m (omega arith))

  -- fewer failed pages and a better state give no lower a value
  page_value_mono :
      (n n' m : ℕ) (b b' : F)
      → 0 < m
      → n' ≤ n
      → b ≼ b'
      → b' ≼ fl.of_ℕ 1
      → page_value n m b ≼ page_value n' m b'
  unfolding page_value
  page_value_mono n n' m b b' pos fewer better top =
      laws.sub_mono (fl.of_ℕ 1) (fl.of_ℕ 1) _ _ (laws.le_refl (fl.of_ℕ 1)) (
        laws.mul_mono _ _ _ _ (ratio_nonneg n' m pos) (laws.ratio_mono n' n m fewer)
          (loss_nonneg b' top)
          (laws.sub_mono (fl.of_ℕ 1) (fl.of_ℕ 1) b' b (laws.le_refl (fl.of_ℕ 1)) better))

  mul_nonneg : (a b : F) → fl.of_ℕ 0 ≼ a → fl.of_ℕ 0 ≼ b → fl.of_ℕ 0 ≼ fl.mul a b
  mul_nonneg a b p q = rw (← laws.mul-zero (fl.of_ℕ 0)) (
      laws.mul_mono (fl.of_ℕ 0) a (fl.of_ℕ 0) b (laws.le_refl (fl.of_ℕ 0)) p
        (laws.le_refl (fl.of_ℕ 0)) q)

  mul-le-one :
      (a b : F)
      → fl.of_ℕ 0 ≼ a
      → a ≼ fl.of_ℕ 1
      → fl.of_ℕ 0 ≼ b
      → b ≼ fl.of_ℕ 1
      → fl.mul a b ≼ fl.of_ℕ 1
  mul-le-one a b p p' q q' =
      laws.le_trans _ (fl.mul (fl.of_ℕ 1) (fl.of_ℕ 1)) _ (laws.mul_mono a _ b _ p p' q q')
        (rw laws.mul-one (laws.le_refl (fl.of_ℕ 1)))

  sub-le-self : (a b : F) → fl.of_ℕ 0 ≼ b → fl.sub a b ≼ a
  sub-le-self a b h =
      laws.le_trans _ (fl.sub a (fl.of_ℕ 0)) _ (laws.sub_mono a a b _ (laws.le_refl a) h)
        (rw laws.sub-zero (laws.le_refl a))

  ratio-le-one : (n m : ℕ) → 0 < m → n ≤ m → fl.ratio n m ≼ fl.of_ℕ 1
  ratio-le-one n m pos le = rw (← laws.ratio_self m pos) (laws.ratio_mono n m m le)

  -- a share of the pages and a loss, both from 0 to 1
  page_value_bounds :
      (n m : ℕ) (b : F)
      → 0 < m
      → n ≤ m
      → fl.of_ℕ 0 ≼ b
      → b ≼ fl.of_ℕ 1
      → (fl.of_ℕ 0 ≼ page_value n m b) × (page_value n m b ≼ fl.of_ℕ 1)
  unfolding page_value
  page_value_bounds n m b pos le low top =
      let share = ratio_nonneg n m pos in
      let loss = loss_nonneg b top in
      (
        loss_nonneg _ (mul-le-one _ _ share (ratio-le-one n m pos le) loss (sub-le-self _ b low)),
        sub-le-self _ _ (mul_nonneg _ _ share loss),
      )

  page_or_base_mono :
      (m : Option ℕ) (n n' : Option ℕ) (b b' : F)
      → FailedLe n' n
      → b ≼ b'
      → b' ≼ fl.of_ℕ 1
      → page_or_base m n b ≼ page_or_base m n' b'
  page_or_base_mono none n n' b b' f better top = better
  page_or_base_mono (some m) none none b b' f better top = better
  page_or_base_mono (some m) (some n) none b b' f better top = absurd f
  page_or_base_mono (some m) none (some n) b b' f better top = absurd f
  page_or_base_mono (some m) (some n) (some n') b b' f better top = elim (Bool-cases (m == 0)) [
    | inl e ↦ rw e better
    | inr e ↦ rw e (page_value_mono n n' m b b' (ground arith) f better top)
  ]

  -- A rule that does better has no lower a value.
  pub value_mono :
      (spec : RuleSpec) (s t : Outcome) → Improves s t → value {F = F} spec s ≼ value spec t
  unfolding value
  value_mono spec s t h =
      let better = state_value_mono s.state t.state h.state in
      let top = (state_value_bounds t.state).1 in
      elim (Bool-cases (is_page spec.scope)) [
        | inl e ↦
            rw (e, h.same_pages)
              (page_or_base_mono t.pages_measured s.pages_failed t.pages_failed _ _ h.failed better
                top)
        | inr e ↦ rw e better
      ]

  page_or_base_bounds :
      (m n : Option ℕ) (b : F)
      → failed_exceeds m n ≡ false
      → fl.of_ℕ 0 ≼ b
      → b ≼ fl.of_ℕ 1
      → (fl.of_ℕ 0 ≼ page_or_base m n b) × (page_or_base m n b ≼ fl.of_ℕ 1)
  unfolding failed_exceeds
  page_or_base_bounds none n b f low top = (low, top)
  page_or_base_bounds (some m) none b f low top = (low, top)
  page_or_base_bounds (some m) (some n) b f low top = elim (Bool-cases (m == 0)) [
    | inl e ↦ rw e (low, top)
    | inr e ↦ rw e (page_value_bounds n m b (ground arith) (ground arith) low top)
  ]

  -- The value of an outcome that the class accepts lies between 0 and 1.
  pub value_bounds :
      (spec : RuleSpec) (o : Outcome)
      → pages_consistent o ≡ ok tt
      → (fl.of_ℕ 0 ≼ value spec o) × (value spec o ≼ fl.of_ℕ 1)
  unfolding value
  value_bounds spec o h =
      let (low, top) = state_value_bounds o.state in
      elim (Bool-cases (is_page spec.scope)) [
        | inl e ↦
            rw e (page_or_base_bounds o.pages_measured o.pages_failed _ (not_exceeds o h) low top)
        | inr e ↦ rw e (low, top)
      ]
