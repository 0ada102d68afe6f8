-- ===== src/Prelude/Float.antt =====
-- The floating-point numbers of Python: the operations that the code uses, as an interface, and
-- the laws of rounding to nearest on finite non-negative values. NaN, the infinities and overflow
-- are left out, and `sum` is taken to be monotone. `Float.Fixed` has an instance to run code by.
pub mod Fixed
use Prim.Native.Nat.{ℕ, ◌≤◌, ◌<◌}
use mathlib.Core.Path.{◌≡◌}
use mathlib.Core.Bool.{Bool, true, false}
use mathlib.Core.List.{List, ◌∷◌}
use scovant_core.Prelude.Tests.{if◌then◌else◌}
use scovant_core.Prelude.Lists.{All, Both}

pub record Float (F : Type 0) : Type 0 where
  -- `float(n)`, and the literals without decimals
  pub of_ℕ : ℕ → F
  -- `lit 25 2` is the literal 0.25
  pub lit : ℕ → ℕ → F
  pub add : F → F → F
  pub sub : F → F → F
  pub mul : F → F → F
  pub div : F → F → F
  -- `a / b` on two integers
  pub ratio : ℕ → ℕ → F
  pub lt : F → F → Bool
  -- the truth value
  pub nonzero : F → Bool
  pub sum : List F → F
  pub floor : F → ℕ
  -- `round(x, n)`
  pub round_to : ℕ → F → F

infix 4 ◌≼◌
abbrev pub ◌≼◌ : {F : Type 0} ⦃fl : Float F⦄ → F → F → Type 0
◌≼◌ ⦃fl⦄ x y = fl.lt y x ≡ false

abbrev pub zero_F : {F : Type 0} ⦃fl : Float F⦄ → F
zero_F ⦃fl⦄ = fl.of_ℕ 0

abbrev pub one_F : {F : Type 0} ⦃fl : Float F⦄ → F
one_F ⦃fl⦄ = fl.of_ℕ 1

pub record IsMonotone (F : Type 0) ⦃fl : Float F⦄ : Type 0 where
  pub le_refl : (x : F) → x ≼ x
  pub le_trans : (x y z : F) → x ≼ y → y ≼ z → x ≼ z
  pub le_of_lt : (x y : F) → fl.lt x y ≡ true → x ≼ y
  pub of_ℕ_mono : (a b : ℕ) → a ≤ b → fl.of_ℕ a ≼ fl.of_ℕ b
  pub half_nonneg : zero_F ≼ fl.lit 5 1
  pub half-le-one : fl.lit 5 1 ≼ one_F
  pub add_mono : (a b c d : F) → a ≼ b → c ≼ d → fl.add a c ≼ fl.add b d
  pub zero-add : (a : F) → fl.add zero_F a ≡ a
  pub sub_mono : (a b c d : F) → a ≼ b → d ≼ c → fl.sub a c ≼ fl.sub b d
  pub sub-zero : (a : F) → fl.sub a zero_F ≡ a
  pub sub_self : (a : F) → fl.sub a a ≡ zero_F
  pub mul_mono : (a b c d : F) → zero_F ≼ a → a ≼ b → zero_F ≼ c → c ≼ d → fl.mul a c ≼ fl.mul b d
  pub mul-zero : (a : F) → fl.mul a zero_F ≡ zero_F
  pub mul-one : (a : F) → fl.mul a one_F ≡ a
  pub div_mono : (a b c : F) → a ≼ b → zero_F ≼ c → fl.div a c ≼ fl.div b c
  pub div_nonneg : (a c : F) → zero_F ≼ a → zero_F ≼ c → zero_F ≼ fl.div a c
  pub ratio_mono : (a b n : ℕ) → a ≤ b → fl.ratio a n ≼ fl.ratio b n
  pub ratio-zero : (n : ℕ) → 0 < n → fl.ratio 0 n ≡ zero_F
  pub ratio_self : (n : ℕ) → 0 < n → fl.ratio n n ≡ one_F
  pub sum_mono : (xs ys : List F) → Both ◌≼◌ xs ys → fl.sum xs ≼ fl.sum ys
  pub sum_nonneg : (xs : List F) → All (λ x. zero_F ≼ x) xs → zero_F ≼ fl.sum xs
  pub floor_mono : (a b : F) → a ≼ b → fl.floor a ≤ fl.floor b
  pub floor_half : (n : ℕ) → n ≤ 100 → fl.floor (fl.add (fl.of_ℕ n) (fl.lit 5 1)) ≡ n

-- Two-digit literals that are not zero are positive, and a sum of positive numbers is not zero.
pub record IsPositive (F : Type 0) ⦃fl : Float F⦄ : Type 0 where
  pub lit_positive : (n : ℕ) → 0 < n → fl.lt zero_F (fl.lit n 2) ≡ true
  pub sum_nonzero :
      (x : F) (xs : List F)
      → fl.lt zero_F x ≡ true
      → All (λ y. fl.lt zero_F y ≡ true) xs
      → fl.nonzero (fl.sum (x ∷ xs)) ≡ true

module _ {F : Type 0} ⦃fl : Float F⦄ where
  -- `max(0.0, x)` and `min(100.0, x)`: the first argument unless the second is larger, smaller
  abbrev pub max_F : F → F → F
  max_F a b = if fl.lt a b then b else a

  abbrev pub min_F : F → F → F
  min_F a b = if fl.lt b a then b else a
