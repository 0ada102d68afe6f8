-- ===== src/Prelude/Float/Fixed.antt =====
-- Millionths, with truncated subtraction: an instance of `Float` that meets its laws.
use Prim.Native.Nat.{ℕ, zero, suc, ◌+◌, ◌-◌, ◌*◌, ◌/◌, ◌^◌, ◌≤◌, ◌<◌}
use mathlib.Core.Path.{◌≡◌, refl}
use mathlib.Core.Bool.{false, not}
use mathlib.Core.List.{List, [], ◌∷◌}
use native.Mathlib.Omega.{arith}
use native.Mathlib.Nat.{mul-le-mul, le-div_iff_mul-le, div-mul-le_self, le_trans, mul-div_right}
use scovant_core.Prelude.Tests.{ltb, ◌==◌}
use scovant_core.Prelude.Lists.{Both}
use scovant_core.Prelude.Float.{Float, IsMonotone, IsPositive, ◌≼◌}

abbrev pub Fixed : Type 0
Fixed = ℕ

abbrev sum_ℕ : List ℕ → ℕ
sum_ℕ [] = 0
sum_ℕ (x ∷ xs) = x + sum_ℕ xs

-- to the nearest multiple of 10 ^ (6 - n), halves up
abbrev round_fixed : ℕ → ℕ → ℕ
round_fixed n x = let unit = 10 ^ (6 - n) in (x + unit / 2) / unit * unit

instance abbrev pub fixed : Float Fixed
fixed = record {
  of_ℕ = λ n. n * 1000000;
  lit = λ n k. n * 1000000 / 10 ^ k;
  add = λ a b. a + b;
  sub = λ a b. a - b;
  mul = λ a b. a * b / 1000000;
  div = λ a b. a * 1000000 / b;
  ratio = λ a b. a * 1000000 / b;
  lt = ltb;
  nonzero = λ a. not (a == 0);
  sum = sum_ℕ;
  floor = λ a. a / 1000000;
  round_to = round_fixed;
}

sum_ℕ_mono : (xs ys : List ℕ) → Both ◌≼◌ xs ys → sum_ℕ ys < sum_ℕ xs → ⊥
sum_ℕ_mono [] [] h = omega arith
sum_ℕ_mono [] (y ∷ ys) h = absurd h
sum_ℕ_mono (x ∷ xs) [] h = absurd h
sum_ℕ_mono (x ∷ xs) (y ∷ ys) (h, hs) = ground (arith, sum_ℕ_mono xs ys hs)

to_le : (a b : ℕ) → ltb b a ≡ false → a ≤ b
to_le a b h = ground arith

of_le : (a b : ℕ) → a ≤ b → ltb b a ≡ false
of_le a b h = ground arith

quotient_mono : (a b n : ℕ) → a ≤ b → a / n ≤ b / n
quotient_mono a b zero h = omega arith
quotient_mono a b (suc n) h =
    (le-div_iff_mul-le (omega arith)).1 (le_trans (div-mul-le_self a (suc n)) h)

quotient_zero : (n : ℕ) → 0 < n → 0 * 1000000 / n ≡ 0
quotient_zero n h = grind arith

pub fixed-IsMonotone : IsMonotone Fixed
fixed-IsMonotone = record {
  le_refl = λ x. of_le x x (omega arith);
  le_trans = λ x y z p q. ground arith;
  le_of_lt = λ x y h. ground arith;
  of_ℕ_mono = λ a b h. ground arith;
  half_nonneg = refl;
  half-le-one = refl;
  add_mono = λ a b c d p q. ground arith;
  zero-add = λ a. omega arith;
  sub_mono = λ a b c d p q. ground arith;
  sub-zero = λ a. omega arith;
  sub_self = λ a. omega arith;
  mul_mono =
      λ a b c d _ p _ q. of_le _ _ (quotient_mono _ _ _ (mul-le-mul (to_le a b p) (to_le c d q)));
  mul-zero = λ a. omega arith;
  mul-one = λ a. omega arith;
  div_mono = λ a b c p _. of_le _ _ (quotient_mono _ _ c (omega (arith, to_le a b p)));
  div_nonneg = λ a c _ _. of_le _ _ (omega arith);
  ratio_mono = λ a b n p. of_le _ _ (quotient_mono _ _ n (omega arith));
  ratio-zero = λ n h. quotient_zero n h;
  ratio_self = λ n h. mul-div_right 1000000 h;
  sum_mono = λ xs ys h. ground (arith, sum_ℕ_mono xs ys h);
  sum_nonneg = λ xs _. of_le _ _ (omega arith);
  floor_mono = λ a b p. ground arith;
  floor_half = λ n h. omega arith;
}

pub fixed-IsPositive : IsPositive Fixed
fixed-IsPositive = record {
  lit_positive = λ n h. ground arith;
  sum_nonzero = λ x xs p ps. ground arith;
}
