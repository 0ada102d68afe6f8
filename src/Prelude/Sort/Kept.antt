-- ===== src/Prelude/Sort/Kept.antt =====
-- What sorting leaves as it is: what holds of each item, and which keys stand in the list, and how often.
use mathlib.Core.Path.{◌≡◌, refl, ap, ◌∙◌}
use mathlib.Core.Logic.{inl, inr}
use mathlib.Core.Bool.{Bool, ◌||◌}
use mathlib.Core.List.{List, [], ◌∷◌, map}
use native.Mathlib.Omega.{arith}
use Prim.Native.String.{String}
use scovant_core.Prelude.Tests.{Bool-cases}
use scovant_core.Prelude.Lists.{All}
use scovant_core.Prelude.Text.{str_eq, str_eq_sym, contains, repeats}
use scovant_core.Prelude.Sort.{insert_by, sort_by}

module _ {ℓ κ} {A : Type ℓ} (le : A → A → Bool) (P : A → Type κ) where
  All-insert_by : (x : A) (xs : List A) → P x → All P xs → All P (insert_by le x xs)
  unfolding insert_by
  All-insert_by x [] p ps = (p, tt)
  All-insert_by x (y ∷ ys) p ps = elim (Bool-cases (le x y)) [
    | inl e ↦ rw e (p, ps)
    | inr e ↦ rw e (ps.0, All-insert_by x ys p ps.1)
  ]

  pub All-sort_by : (xs : List A) → All P xs → All P (sort_by le xs)
  unfolding sort_by
  All-sort_by [] ps = tt
  All-sort_by (x ∷ xs) ps = All-insert_by x (sort_by le xs) ps.0 (All-sort_by xs ps.1)

  insert_by-All : (x : A) (xs : List A) → All P (insert_by le x xs) → P x × All P xs
  unfolding insert_by
  insert_by-All x [] ps = ps
  insert_by-All x (y ∷ ys) ps = elim (Bool-cases (le x y)) [
    | inl e ↦ rw e at ps
    | inr e ↦ let qs = rw e at ps in let (p, rest) = insert_by-All x ys qs.1 in (p, (qs.0, rest))
  ]

  pub sort_by-All : (xs : List A) → All P (sort_by le xs) → All P xs
  unfolding sort_by
  sort_by-All [] ps = tt
  sort_by-All (x ∷ xs) ps =
      let (p, rest) = insert_by-All x (sort_by le xs) ps in (p, sort_by-All xs rest)

swap : (a b c : Bool) → (a || (b || c)) ≡ (b || (a || c))
swap a b c = ground arith

swap_repeats : (a b c d : Bool) → ((a || b) || (c || d)) ≡ ((a || c) || (b || d))
swap_repeats a b c d = ground arith

pub str_eq_comm : (s t : String) → str_eq s t ≡ str_eq t s
str_eq_comm s t = elim (Bool-cases (str_eq s t)) [
  | inl e ↦ elim (Bool-cases (str_eq t s)) [
    | inl f ↦ rw (e, f) refl
    | inr f ↦ let g = str_eq_sym t s f in absurd cc
  ]
  | inr e ↦ rw (e, str_eq_sym s t e) refl
]

module _ {ℓ} {A : Type ℓ} (le : A → A → Bool) (f : A → String) where
  contains-insert_by :
      (x : A) (xs : List A) (s : String)
      → contains (map f (insert_by le x xs)) s ≡ (str_eq (f x) s || contains (map f xs) s)
  unfolding insert_by
  contains-insert_by x [] s = refl
  contains-insert_by x (y ∷ ys) s = elim (Bool-cases (le x y)) [
    | inl e ↦ rw e refl
    | inr e ↦
        rw (e, contains-insert_by x ys s)
          (swap (str_eq (f y) s) (str_eq (f x) s) (contains (map f ys) s))
  ]

  contains-sort_by :
      (xs : List A) (s : String) → contains (map f (sort_by le xs)) s ≡ contains (map f xs) s
  unfolding sort_by
  contains-sort_by [] s = refl
  contains-sort_by (x ∷ xs) s =
      contains-insert_by x (sort_by le xs) s ∙ ap (λ b. str_eq (f x) s || b) (contains-sort_by xs s)

  repeats-insert_by :
      (x : A) (xs : List A)
      → repeats (map f (insert_by le x xs)) ≡ (contains (map f xs) (f x) || repeats (map f xs))
  unfolding insert_by
  repeats-insert_by x [] = refl
  repeats-insert_by x (y ∷ ys) = elim (Bool-cases (le x y)) [
    | inl e ↦ rw e refl
    | inr e ↦
        rw (e, contains-insert_by x ys (f y), repeats-insert_by x ys, str_eq_comm (f x) (f y))
          (swap_repeats (str_eq (f y) (f x)) (contains (map f ys) (f y)) (contains (map f ys) (f x))
            (repeats (map f ys)))
  ]

  pub repeats-sort_by : (xs : List A) → repeats (map f (sort_by le xs)) ≡ repeats (map f xs)
  unfolding sort_by
  repeats-sort_by [] = refl
  repeats-sort_by (x ∷ xs) =
      repeats-insert_by x (sort_by le xs) ∙ rw (contains-sort_by xs (f x), repeats-sort_by xs) refl
