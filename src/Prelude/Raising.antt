-- ===== src/Prelude/Raising.antt =====
-- Code that may raise: the exception is a value.
use mathlib.Core.Path.{◌≡◌, refl}
use mathlib.Core.Bool.{Bool, true, false}

pub data Result {ℓ κ} (E : Type ℓ) (A : Type κ) : Type (ℓ ⊔ κ) where
  err : E → Result E A
  ok : A → Result E A

-- what runs when nothing was raised before
infixl 5 ◌>>=◌
abbrev pub ◌>>=◌ {ℓ κ μ} :
    {E : Type ℓ} {V : Type κ} {W : Type μ} → Result E V → (V → Result E W) → Result E W
err raised >>= rest = err raised
ok v >>= rest = rest v

infixl 5 ◌>>◌
abbrev pub ◌>>◌ {ℓ κ} : {E : Type ℓ} {W : Type κ} → Result E (Unit {0}) → Result E W → Result E W
check >> rest = check >>= λ _. rest

-- `if test: raise e`
abbrev pub raise_if {ℓ} : {E : Type ℓ} → Bool → E → Result E (Unit {0})
raise_if false e = ok tt
raise_if true e = err e

pub >>=-eq-ok {ℓ κ μ} :
    {E : Type ℓ} {V : Type κ} {W : Type μ} (run : Result E V) (rest : V → Result E W) {w : W}
    → (run >>= rest) ≡ ok w
    → (v : V) × (run ≡ ok v) × (rest v ≡ ok w)
>>=-eq-ok (err raised) rest h = absurd cc
>>=-eq-ok (ok v) rest h = (v, refl, h)

pub raised :
    {E W : Type 0} (b : Bool) (e : E) {m : Result E W} {x : W}
    → (raise_if b e >>= λ _. m) ≡ ok x
    → (b ≡ false) × (m ≡ ok x)
raised true e h = absurd cc
raised false e h = (refl, h)

-- the last test of a function that may raise
pub raised_last : {E : Type 0} (b : Bool) (e : E) → raise_if b e ≡ ok tt → b ≡ false
raised_last true e h = absurd cc
raised_last false e h = refl

abbrev pub is_ok {ℓ κ} : {E : Type ℓ} {V : Type κ} → Result E V → Bool
is_ok (ok v) = true
is_ok (err raised) = false

-- what raised nothing gives a value
pub returned {ℓ κ} :
    {E : Type ℓ} {V : Type κ} (m : Result E V) → is_ok m ≡ true → (v : V) × (m ≡ ok v)
returned (ok v) h = (v, refl)
returned (err e) h = absurd cc
