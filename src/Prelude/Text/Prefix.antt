-- ===== src/Prelude/Text/Prefix.antt =====
-- Texts put behind a common prefix.
use Prim.Native.Char.{code}
use Prim.Native.String.{String}
use Prim.Native.String.append.{nil, cons}
use mathlib.Core.Path.{◌≡◌, refl, sym, ap, ◌∙◌}
use mathlib.Core.Logic.{inl, inr}
use mathlib.Core.Bool.{Bool, false, ◌&&◌}
use mathlib.Core.Option.{none, some}
use native.Mathlib.Omega.{arith}
use scovant_core.Prelude.Tests.{Bool-cases, ==_iff}
use scovant_core.Prelude.Text.{str_eq, eq_iff, concat, drop_prefix, is_space}
use scovant_core.Prelude.Text.Blank.{is_white}

pub drop_prefix-concat : (p s : String) → drop_prefix p (concat p s) ≡ some s
unfolding drop_prefix
drop_prefix-concat String.[] s = ap (λ t. some t) (λ i. nil s i)
drop_prefix-concat (String.◌∷◌ c p) s =
    ap (drop_prefix (String.◌∷◌ c p)) (λ i. cons c p s i)
    ∙ rw ((==_iff (code c) (code c)).1 refl) (drop_prefix-concat p s)

and_assoc : (a b c : Bool) → (a && (b && c)) ≡ (a && b && c)
and_assoc a b c = ground arith

pub is_white-concat : (p s : String) → is_white (concat p s) ≡ (is_white p && is_white s)
unfolding is_white
is_white-concat String.[] s = ap is_white (λ i. nil s i)
is_white-concat (String.◌∷◌ c p) s =
    ap is_white (λ i. cons c p s i)
    ∙ ap (λ b. is_space c && b) (is_white-concat p s)
    ∙ and_assoc (is_space c) (is_white p) (is_white s)

-- one prefix keeps texts apart
pub str_eq-concat : (p s t : String) → str_eq (concat p s) (concat p t) ≡ str_eq s t
str_eq-concat p s t = elim (Bool-cases (str_eq s t)) [
  | inl e ↦
      let same : concat p s ≡ concat p t = ap (concat p) ((eq_iff s t).0 e) in
      rw e ((eq_iff (concat p s) (concat p t)).1 same)
  | inr e ↦ elim (Bool-cases (str_eq (concat p s) (concat p t))) [
    | inl f ↦
        let same : concat p s ≡ concat p t = (eq_iff (concat p s) (concat p t)).0 f in
        let behind : some s ≡ some t =
          sym (drop_prefix-concat p s) ∙ ap (drop_prefix p) same ∙ drop_prefix-concat p t in
        let equal : s ≡ t = cc in let g = (eq_iff s t).1 equal in absurd cc
    | inr f ↦ rw (e, f) refl
  ]
]

-- a text without the prefix
pub str_eq-without : (p s t : String) → drop_prefix p t ≡ none → str_eq t (concat p s) ≡ false
str_eq-without p s t h = elim (Bool-cases (str_eq t (concat p s))) [
  | inl e ↦
      let same : t ≡ concat p s = (eq_iff t (concat p s)).0 e in
      let both : none ≡ some s = sym h ∙ ap (drop_prefix p) same ∙ drop_prefix-concat p s in
      absurd cc
  | inr e ↦ e
]
