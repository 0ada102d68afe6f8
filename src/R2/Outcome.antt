-- ===== src/R2/Outcome.antt =====
-- r2/outcome.py: one outcome per rule and scan.
use scovant_core.Prelude.{
  ℕ, String, Bool, true, false, not, ◌&&◌, ◌||◌, Option, none, some, List, [], ◌∷◌, ltb, ◌==◌,
  is_none, Result, ◌>>◌, raise_if,
}
use scovant_core.Prelude.Float.{Float, zero_F, one_F}

pub data OutcomeState : Type 0 where
  pass warn fail na not_measured error blocked_by_policy unknown : OutcomeState

-- `state in MEASURED_STATES`
abbrev pub is_measured : OutcomeState → Bool
is_measured OutcomeState.pass = true
is_measured OutcomeState.warn = true
is_measured OutcomeState.fail = true
is_measured _ = false

abbrev pub is_pass : OutcomeState → Bool
is_pass OutcomeState.pass = true
is_pass _ = false

abbrev pub is_fail : OutcomeState → Bool
is_fail OutcomeState.fail = true
is_fail _ = false

abbrev pub is_na : OutcomeState → Bool
is_na OutcomeState.na = true
is_na _ = false

abbrev pub is_error : OutcomeState → Bool
is_error OutcomeState.error = true
is_error _ = false

-- `STATE_VALUE`. The dictionary has the measured states alone (another is a `KeyError`), and the
-- code asks for no other: `value` of `R2.Score` stands behind the test `is_measured`.
unfoldable pub state_value : {F : Type 0} ⦃fl : Float F⦄ → OutcomeState → F
state_value OutcomeState.pass = one_F
state_value ⦃fl⦄ OutcomeState.warn = fl.lit 5 1
state_value _ = zero_F

pub data R2Category : Type 0 where
  discoverability structured consistency actionability trust ucp citability : R2Category

-- `for c in R2Category`
abbrev pub categories : List R2Category
categories =
    R2Category.discoverability ∷ R2Category.structured ∷ R2Category.consistency
    ∷ R2Category.actionability ∷ R2Category.trust ∷ R2Category.ucp ∷ R2Category.citability ∷ []

abbrev pub category_index : R2Category → ℕ
category_index R2Category.discoverability = 0
category_index R2Category.structured = 1
category_index R2Category.consistency = 2
category_index R2Category.actionability = 3
category_index R2Category.trust = 4
category_index R2Category.ucp = 5
category_index R2Category.citability = 6

abbrev pub category_eq : R2Category → R2Category → Bool
category_eq a b = category_index a == category_index b

-- Page counts are natural numbers, so the check for negative ones has nothing to test.
pub record Outcome : Type 0 where
  pub rule_id : String
  pub state : OutcomeState
  pub pages_measured : Option ℕ
  pub pages_failed : Option ℕ
  pub evidence_key : String
  pub reason : String

pub data PageCountError : Type 0 where
  one_count failed_exceeds_measured : PageCountError

-- an outcome with the defaults of the class
abbrev pub plain : String → OutcomeState → String → Outcome
plain rule_id state reason = record {
  rule_id = rule_id;
  state = state;
  pages_measured = none;
  pages_failed = none;
  evidence_key = "";
  reason = reason;
}

unfoldable pub failed_exceeds : Option ℕ → Option ℕ → Bool
failed_exceeds (some pm) (some pf) = ltb pm pf
failed_exceeds _ _ = false

-- both counts are given, or neither
one_given : Option ℕ → Option ℕ → Bool
one_given pm pf = is_none pm && not (is_none pf) || not (is_none pm) && is_none pf

-- `Outcome._pages_consistent`
unfoldable pub pages_consistent : Outcome → Result PageCountError (Unit {0})
unfolding failed_exceeds one_given
pages_consistent o = do
  raise_if (one_given o.pages_measured o.pages_failed) one_count
  raise_if (failed_exceeds o.pages_measured o.pages_failed) failed_exceeds_measured
