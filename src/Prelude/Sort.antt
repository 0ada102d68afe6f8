-- ===== src/Prelude/Sort.antt =====
-- `sorted`: a stable insertion sort by a test for `<=` on the keys.
pub mod Kept
use Prim.Native.Nat.{suc}
use mathlib.Core.Path.{◌≡◌, refl, ap, sym, ◌∙◌}
use mathlib.Core.Logic.{inl, inr}
use mathlib.Core.Bool.{Bool}
use mathlib.Core.List.{List, [], ◌∷◌}
use scovant_core.Prelude.Tests.{if◌then◌else◌, Bool-cases}
use scovant_core.Prelude.Lists.{Both, length}

module _ {ℓ} {A : Type ℓ} where
  unfoldable pub insert_by : (A → A → Bool) → A → List A → List A
  insert_by le x [] = x ∷ []
  insert_by le x (y ∷ ys) = if le x y then x ∷ y ∷ ys else y ∷ insert_by le x ys

  unfoldable pub sort_by : (A → A → Bool) → List A → List A
  unfolding insert_by
  sort_by le [] = []
  sort_by le (x ∷ xs) = insert_by le x (sort_by le xs)

module _ {ℓ} {A : Type ℓ} (le : A → A → Bool) where
  length-insert_by : (x : A) (xs : List A) → length (insert_by le x xs) ≡ suc (length xs)
  unfolding insert_by
  length-insert_by x [] = refl
  length-insert_by x (y ∷ ys) = elim (Bool-cases (le x y)) [
    | inl e ↦ rw e refl
    | inr e ↦ rw e (ap suc (length-insert_by x ys))
  ]

  pub length-sort_by : (xs : List A) → length (sort_by le xs) ≡ length xs
  unfolding sort_by
  length-sort_by [] = refl
  length-sort_by (x ∷ xs) = length-insert_by x (sort_by le xs) ∙ ap suc (length-sort_by xs)

-- Related lists are sorted alike, where related items compare alike.
module _ {ℓ} {A : Type ℓ} (le : A → A → Bool) (R : A → A → Type 0)
    (alike : (a b c d : A) → R a b → R c d → le a c ≡ le b d) where
  insert_by-Both :
      (x y : A) (xs ys : List A)
      → R x y
      → Both R xs ys
      → Both R (insert_by le x xs) (insert_by le y ys)
  unfolding insert_by
  insert_by-Both x y [] [] r h = (r, tt)
  insert_by-Both x y [] (v ∷ vs) r h = absurd h
  insert_by-Both x y (u ∷ us) [] r h = absurd h
  insert_by-Both x y (u ∷ us) (v ∷ vs) r h = elim (Bool-cases (le x u)) [
    | inl e ↦ rw (e, (sym (alike x y u v r h.0) ∙ e)) (r, h)
    | inr e ↦ rw (e, (sym (alike x y u v r h.0) ∙ e)) (h.0, insert_by-Both x y us vs r h.1)
  ]

  pub sort_by-Both : (xs ys : List A) → Both R xs ys → Both R (sort_by le xs) (sort_by le ys)
  unfolding sort_by
  sort_by-Both [] [] h = tt
  sort_by-Both [] (y ∷ ys) h = absurd h
  sort_by-Both (x ∷ xs) [] h = absurd h
  sort_by-Both (x ∷ xs) (y ∷ ys) h =
      insert_by-Both x y (sort_by le xs) (sort_by le ys) h.0 (sort_by-Both xs ys h.1)
