-- ===== src/Prelude/Text/Blank.antt =====
-- Texts of white space.
use Prim.Native.Char.{Char}
use Prim.Native.String.{String}
use Prim.Native.String.compare.{cons-nil}
use text.Mathlib.Text.{is_eq}
use mathlib.Core.Path.{◌≡◌, refl, sym, ap, ◌∙◌}
use mathlib.Core.Logic.{inl, inr}
use mathlib.Core.Bool.{Bool, true, false, ◌&&◌}
use scovant_core.Prelude.Tests.{Bool-cases}
use scovant_core.Prelude.Text.{str_eq, is_space, lstrip, rstrip, strip}

unfoldable pub is_white : String → Bool
unfolding is_space
is_white String.[] = true
is_white (String.◌∷◌ c s) = is_space c && is_white s

is_white-lstrip : (s : String) → is_white (lstrip s) ≡ is_white s
unfolding is_white lstrip
is_white-lstrip String.[] = refl
is_white-lstrip (String.◌∷◌ c s) = elim (Bool-cases (is_space c)) [
  | inl e ↦ rw e (is_white-lstrip s)
  | inr e ↦ rw e (rw e refl)
]

first_stays : (c : Char) (s : String) → str_eq (String.◌∷◌ c s) "" ≡ false
first_stays c s = ap is_eq (λ i. cons-nil c s i)

rstrip-eq : (s : String) → str_eq (rstrip s) "" ≡ is_white s
unfolding is_white rstrip
rstrip-eq String.[] = refl
rstrip-eq (String.◌∷◌ c s) =
    let white = sym (ap (λ b. is_space c && b) (rstrip-eq s)) in
    elim (Bool-cases (is_space c && str_eq (rstrip s) "")) [
      | inl e ↦ rw e (sym (white ∙ e))
      | inr e ↦ rw e (first_stays c (rstrip s) ∙ sym (white ∙ e))
    ]

-- a text that `strip` leaves empty is white space
pub strip-eq : (s : String) → str_eq (strip s) "" ≡ is_white s
unfolding strip
strip-eq s = rstrip-eq (lstrip s) ∙ is_white-lstrip s
