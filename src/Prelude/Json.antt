-- ===== src/Prelude/Json.antt =====
-- The values that a parsed JSON text has, and what the code reads of them.
use mathlib.Core.Bool.{Bool, true, false, not, ◌||◌}
use Prim.Native.String.{String}
use Prim.Native.Nat.{ℕ}
use scovant_core.Prelude.Tests.{if◌then◌else◌, ◌==◌}
use scovant_core.Prelude.Text.{str_eq}

-- A number of a JSON text: an integer, or a decimal with the given number of decimals. The infinities,
-- NaN and the rounding to a double are left out.
pub data Number : Type 0 where
  int : (negative : Bool) → ℕ → Number
  float : (negative : Bool) → (digits : ℕ) → (decimals : ℕ) → Number

mutual
  pub data Json : Type 0 where
    null : Json
    bool : Bool → Json
    number : Number → Json
    text : String → Json
    array : Items → Json
    object : Fields → Json

  pub data Items : Type 0 where
    end : Items
    item : Json → Items → Items

  -- the items of a dictionary; the first of two with one key stands for both
  pub data Fields : Type 0 where
    no_more : Fields
    field : String → Json → Fields → Fields

abbrev pub nonzero : Number → Bool
nonzero (int negative n) = not (n == 0)
nonzero (float negative n decimals) = not (n == 0)

-- `bool(v)`
abbrev pub truthy : Json → Bool
truthy null = false
truthy (bool b) = b
truthy (number n) = nonzero n
truthy (text s) = not (str_eq s "")
truthy (array end) = false
truthy (array (item x xs)) = true
truthy (object no_more) = false
truthy (object (field k v fs)) = true

abbrev pub find_field : String → Fields → Json
find_field k no_more = null
find_field k (field j v fs) = if str_eq j k then v else find_field k fs

-- `k in d`
abbrev pub has_field : String → Fields → Bool
has_field k no_more = false
has_field k (field j v fs) = str_eq j k || has_field k fs

-- `v.get(k)` of a dictionary; `null` of another value
abbrev pub get : String → Json → Json
get k (object fs) = find_field k fs
get k _ = null

-- `isinstance(v, dict)`
abbrev pub is_object : Json → Bool
is_object (object fs) = true
is_object _ = false

abbrev pub is_array : Json → Bool
is_array (array xs) = true
is_array _ = false

-- `v is True` and `v is False`
abbrev pub is_true : Json → Bool
is_true (bool b) = b
is_true _ = false

abbrev pub is_false : Json → Bool
is_false (bool b) = not b
is_false _ = false

abbrev pub is_null : Json → Bool
is_null null = true
is_null _ = false

-- `v == s` for a text
abbrev pub is_text : String → Json → Bool
is_text s (text t) = str_eq t s
is_text s _ = false
