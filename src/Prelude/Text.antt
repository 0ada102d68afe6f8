-- ===== src/Prelude/Text.antt =====
-- Native texts: equality, membership, the order of Python's `<` on `str` (by code point), and
-- `str.strip`, `str.lower` on ASCII text (other characters are left as they are).
pub mod Blank
pub mod Prefix
use Prim.Native.Nat.{ℕ, ◌-◌, ◌/◌, ◌%◌}
use Prim.Native.Char.{Char, code}
use Prim.Native.String
use Prim.Native.String.{String}
use mathlib.Core.Path.{◌≡◌, refl, sym, ap, ◌∙◌}
use mathlib.Core.Logic.{inl, inr}
use mathlib.Core.Bool.{Bool, true, false, ◌&&◌, ◌||◌}
use mathlib.Core.Option.{Option, none, some}
use mathlib.Core.List.{List, [], ◌∷◌}
use text.Mathlib.Text.{is_lt, is_le}
use text.Mathlib.TextEquality.{eq_iff}
use text.Mathlib.Text.{◌==◌ as str_eq}
use scovant_core.Prelude.Tests.{leb, if◌then◌else◌, Bool-cases, is_none, ◌==◌ as same_code}
pub use text.Mathlib.Text.{◌==◌ as str_eq}
pub use text.Mathlib.TextEquality.{eq_iff}
pub use text.Mathlib.TextPositions.{eq_refl}
pub use Prim.Native.String.{◌++◌ as concat}
use text.Mathlib.Text.{starts_with}
pub use text.Mathlib.Text.{starts_with}

-- `s < t` and `s <= t` on `str`
abbrev pub str_ltb : String → String → Bool
str_ltb s t = is_lt (String.compare s t)

abbrev pub str_leb : String → String → Bool
str_leb s t = is_le (String.compare s t)

-- `s in xs`
abbrev pub contains : List String → String → Bool
contains [] s = false
contains (x ∷ xs) s = str_eq x s || contains xs s

pub differ : (i j k : String) → str_eq i j ≡ false → str_eq i k ≡ true → str_eq j k ≡ false
differ i j k e q = elim (Bool-cases (str_eq j k)) [
  | inl r ↦
      let left : i ≡ k = (eq_iff i k).0 q in
      let right : j ≡ k = (eq_iff j k).0 r in
      let both : str_eq i j ≡ true = (eq_iff i j).1 (left ∙ sym right) in absurd cc
  | inr r ↦ r
]

pub str_eq_sym : (s t : String) → str_eq s t ≡ false → str_eq t s ≡ false
str_eq_sym s t h = elim (Bool-cases (str_eq t s)) [
  | inl e ↦
      let same : t ≡ s = (eq_iff t s).0 e in
      let back : str_eq s t ≡ true = (eq_iff s t).1 (sym same) in absurd cc
  | inr e ↦ e
]

-- `len(xs) != len(set(xs))`
abbrev pub repeats : List String → Bool
repeats [] = false
repeats (x ∷ xs) = contains xs x || repeats xs

-- `d.get(k)` and `d[k] = v` on a dictionary in insertion order
module _ {ℓ} {V : Type ℓ} where
  abbrev pub lookup : String → List (String × V) → Option V
  lookup k [] = none
  lookup k ((j, v) ∷ m) = if str_eq j k then some v else lookup k m

  abbrev pub insert : String → V → List (String × V) → List (String × V)
  insert k v [] = (k, v) ∷ []
  insert k v ((j, w) ∷ m) = if str_eq j k then (j, v) ∷ m else (j, w) ∷ insert k v m

  -- `d.keys()`
  abbrev pub keys : List (String × V) → List String
  keys [] = []
  keys ((k, v) ∷ m) = k ∷ keys m

  -- `d.setdefault(k, v)`, as the dictionary that it leaves
  abbrev pub set_default : String → V → List (String × V) → List (String × V)
  set_default k v m = if is_none (lookup k m) then insert k v m else m

  pub lookup-insert :
      (j k : String) (v : V) (m : List (String × V))
      → lookup k (insert j v m) ≡ (if str_eq j k then some v else lookup k m)
  lookup-insert j k v [] = refl
  lookup-insert j k v ((i, w) ∷ m) = elim (Bool-cases (str_eq i j)) [
    | inl e ↦
        let same : i ≡ j = (eq_iff i j).0 e in
        let alike : str_eq i k ≡ str_eq j k = ap (λ x. str_eq x k) same in
        elim (Bool-cases (str_eq j k)) [
          | inl q ↦ rw (e, q, (alike ∙ q)) refl
          | inr q ↦ rw (e, q, (alike ∙ q)) refl
        ]
    | inr e ↦ elim (Bool-cases (str_eq i k)) [
      | inl q ↦ let other : str_eq j k ≡ false = differ i j k e q in rw (e, q, other) refl
      | inr q ↦ rw (e, q) (lookup-insert j k v m)
    ]
  ]

lower_letters : List Char
lower_letters =
    "a" ∷ "b" ∷ "c" ∷ "d" ∷ "e" ∷ "f" ∷ "g" ∷ "h" ∷ "i" ∷ "j" ∷ "k" ∷ "l" ∷ "m" ∷ "n" ∷ "o" ∷ "p"
    ∷ "q" ∷ "r" ∷ "s" ∷ "t" ∷ "u" ∷ "v" ∷ "w" ∷ "x" ∷ "y" ∷ "z" ∷ []

nth_char : List Char → ℕ → Char → Char
nth_char [] n d = d
nth_char (c ∷ cs) ℕ.zero d = c
nth_char (c ∷ cs) (ℕ.suc n) d = nth_char cs n d

lower_char : Char → Char
unfolding nth_char lower_letters
lower_char c =
    if leb b'A' (code c) && leb (code c) b'Z' then nth_char lower_letters (code c - b'A') c else c

unfoldable pub lower : String → String
unfolding lower_char
lower String.[] = String.[]
lower (String.◌∷◌ c s) = String.◌∷◌ (lower_char c) (lower s)

upper_letters : List Char
upper_letters =
    "A" ∷ "B" ∷ "C" ∷ "D" ∷ "E" ∷ "F" ∷ "G" ∷ "H" ∷ "I" ∷ "J" ∷ "K" ∷ "L" ∷ "M" ∷ "N" ∷ "O" ∷ "P"
    ∷ "Q" ∷ "R" ∷ "S" ∷ "T" ∷ "U" ∷ "V" ∷ "W" ∷ "X" ∷ "Y" ∷ "Z" ∷ []

upper_char : Char → Char
unfolding nth_char upper_letters
upper_char c =
    if leb b'a' (code c) && leb (code c) b'z' then nth_char upper_letters (code c - b'a') c else c

unfoldable pub upper : String → String
unfolding upper_char
upper String.[] = String.[]
upper (String.◌∷◌ c s) = String.◌∷◌ (upper_char c) (upper s)

-- `s[:n]`
unfoldable pub cut : ℕ → String → String
cut ℕ.zero s = ""
cut (ℕ.suc n) String.[] = ""
cut (ℕ.suc n) (String.◌∷◌ c s) = String.◌∷◌ c (cut n s)

-- `part in s`
unfoldable pub occurs : String → String → Bool
occurs part String.[] = str_eq part ""
occurs part (String.◌∷◌ c s) = starts_with (String.◌∷◌ c s) part || occurs part s

-- what follows a prefix, where the text has it
unfoldable pub drop_prefix : String → String → Option String
drop_prefix String.[] s = some s
drop_prefix (String.◌∷◌ c p) String.[] = none
drop_prefix (String.◌∷◌ c p) (String.◌∷◌ d s) =
    let rest = drop_prefix p s in if same_code (code c) (code d) then rest else none

-- the ASCII characters that `str.isspace` accepts
is_space : Char → Bool
is_space c = leb 9 (code c) && leb (code c) 13 || leb 28 (code c) && leb (code c) 32

lstrip : String → String
unfolding is_space
lstrip String.[] = String.[]
lstrip (String.◌∷◌ c s) = let rest = lstrip s in if is_space c then rest else String.◌∷◌ c s

-- drops the white space at the end: a space is kept where something is left behind it
rstrip : String → String
unfolding is_space
rstrip String.[] = String.[]
rstrip (String.◌∷◌ c s) =
    let rest = rstrip s in if is_space c && str_eq rest "" then String.[] else String.◌∷◌ c rest

unfoldable pub strip : String → String
unfolding lstrip rstrip
strip s = rstrip (lstrip s)

strip-lower_test : lower (strip "  SaaS x ") ≡ "saas x"
unfolding lower strip
strip-lower_test = refl

nth_text : List String → ℕ → String
nth_text [] n = ""
nth_text (t ∷ ts) ℕ.zero = t
nth_text (t ∷ ts) (ℕ.suc n) = nth_text ts n

digit_text : ℕ → String
unfolding nth_text
digit_text n = nth_text ("0" ∷ "1" ∷ "2" ∷ "3" ∷ "4" ∷ "5" ∷ "6" ∷ "7" ∷ "8" ∷ "9" ∷ []) n

-- the digits of a number, with its successor as fuel: each turn divides by ten
decimal_from : ℕ → ℕ → String
unfolding digit_text
decimal_from ℕ.zero n = ""
decimal_from (ℕ.suc fuel) n =
    let front = decimal_from fuel (n / 10) in
    concat (if leb 10 n then front else "") (digit_text (n % 10))

-- `str(n)`
unfoldable pub decimal : ℕ → String
unfolding decimal_from
decimal n = decimal_from (ℕ.suc n) n

decimal_test : decimal 4070 ≡ "4070"
unfolding decimal
decimal_test = refl

upper_test : upper "partial_x" ≡ "PARTIAL_X"
unfolding upper
upper_test = refl

drop_prefix_test : drop_prefix "RFC " "RFC 9116" ≡ some "9116"
unfolding drop_prefix
drop_prefix_test = refl
