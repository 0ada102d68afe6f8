-- ===== src/Rules/FloatText.antt =====
-- Python's `float(s)` on a text, as far as the code reads it: whether there is a value, and whether it is
-- positive. Digits and white space are those of ASCII.
use Prim.Native.Nat.{◌^◌}
use Prim.Native.Char.{code}
use scovant_core.Prelude.{
  ℕ, suc, ◌+◌, ◌*◌, ◌-◌, String, Bool, true, false, not, ◌&&◌, ◌||◌, Option, none, some, leb, ltb,
  ◌==◌, if◌then◌else◌, str_eq, strip, lower, ◌≡◌, refl,
}

-- `finite negative digits up down` is digits · 10 ^ up / 10 ^ down
pub data FloatText : Type 0 where
  finite : (negative : Bool) → (digits up down : ℕ) → FloatText
  infinite : (negative : Bool) → FloatText
  nan : FloatText

abbrev is_digit : ℕ → Bool
is_digit c = leb b'0' c && leb c b'9'

-- an underscore may stand between two digits
abbrev starts_digit : String → Bool
starts_digit String.[] = false
starts_digit (String.◌∷◌ c s) = is_digit (code c)

abbrev cons_char : Prim.Native.Char.Char → Option String → Option String
cons_char c none = none
cons_char c (some s) = some (String.◌∷◌ c s)

drop_underscores : Bool → String → Option String
drop_underscores after_digit String.[] = some String.[]
drop_underscores after_digit (String.◌∷◌ c s) =
    let skipped = drop_underscores false s in
    let kept = cons_char c (drop_underscores (is_digit (code c)) s) in
    if code c == b'_' then (if after_digit && starts_digit s then skipped else none) else kept

-- the digits at the start, as a number, with how many there are and what follows
read_digits : ℕ → ℕ → String → ℕ × ℕ × String
read_digits value count String.[] = (value, count, String.[])
read_digits value count (String.◌∷◌ c s) =
    let rest = read_digits (value * 10 + (code c - b'0')) (suc count) s in
    if is_digit (code c) then rest else (value, count, String.◌∷◌ c s)

-- a sign at the start
abbrev read_sign : String → Bool × String
read_sign String.[] = (false, String.[])
read_sign (String.◌∷◌ c s) =
    if code c == b'-'
    then (true, s)
    else if code c == b'+'
    then (false, s)
    else (false, String.◌∷◌ c s)

abbrev is_e : ℕ → Bool
is_e c = c == b'e' || c == b'E'

abbrev exponent_from : Bool → ℕ → ℕ → Bool → ℕ × ℕ × String → Option FloatText
exponent_from negative digits down minus (value, count, rest) =
    if count == 0 || not (str_eq rest "")
    then none
    else some (
        if minus
        then finite negative digits 0 (down + value)
        else finite negative digits value down)

read_exponent : Bool → ℕ → ℕ → String → Option FloatText
unfolding read_digits
read_exponent negative digits down String.[] = some (finite negative digits 0 down)
read_exponent negative digits down (String.◌∷◌ c s) =
    let (minus, rest) = read_sign s in
    if is_e (code c) then exponent_from negative digits down minus (read_digits 0 0 rest) else none

after_fraction : Bool → ℕ → ℕ × ℕ × String → Option FloatText
unfolding read_exponent
after_fraction negative whole_count (digits, count, rest) =
    if whole_count + count == 0 then none else read_exponent negative digits count rest

read_fraction : Bool → ℕ → ℕ → String → Option FloatText
unfolding after_fraction read_digits
read_fraction negative digits count String.[] = after_fraction negative count (digits, 0, String.[])
read_fraction negative digits count (String.◌∷◌ c s) =
    let fraction = after_fraction negative count (read_digits digits 0 s) in
    let whole = after_fraction negative count (digits, 0, String.◌∷◌ c s) in
    if code c == b'.' then fraction else whole

after_whole : Bool → ℕ × ℕ × String → Option FloatText
unfolding read_fraction
after_whole negative (digits, count, rest) = read_fraction negative digits count rest

number_from : Bool × String → Option FloatText
unfolding after_whole read_digits
number_from (negative, rest) = after_whole negative (read_digits 0 0 rest)

signed_value : Bool × String → Option FloatText
unfolding number_from lower
signed_value (negative, rest) =
    let word = lower rest in
    if str_eq word "inf" || str_eq word "infinity"
    then some (infinite negative)
    else if str_eq word "nan"
    then some nan
    else number_from (negative, rest)

value_of : Option String → Option FloatText
unfolding signed_value
value_of none = none
value_of (some s) = signed_value (read_sign s)

-- `float(s)`; `none` is the `ValueError`
unfoldable pub float_text : String → Option FloatText
unfolding value_of drop_underscores strip
float_text s = value_of (drop_underscores false (strip s))

-- `float(s) > 0`: a value at or below half of the least double, 2 ^ -1074, is rounded to zero
unfoldable pub is_positive : FloatText → Bool
is_positive nan = false
is_positive (infinite negative) = not negative
is_positive (finite negative digits up down) =
    not negative && ltb (10 ^ down) (digits * 10 ^ up * 2 ^ 1075)

float_text_test : float_text " -29.90e1 " ≡ some (finite true 2990 1 2)
unfolding float_text
float_text_test = refl

float_text-dollar_test : float_text "$29.99" ≡ none
unfolding float_text
float_text-dollar_test = refl
