-- ===== src/Rules/Conform.antt =====
-- rules/conform.py: evidence, read as its documentation says. A key of a dictionary is a text, as in
-- JSON. A `TypedDict` is the list of its hints.
pub mod Fits
pub mod Reads
pub mod Keeps
pub mod Field
use scovant_core.Prelude.{
  String, Bool, true, false, not, ◌||◌, Option, none, some, List, if◌then◌else◌, str_eq, contains,
}
use scovant_core.Prelude.Json.{
  Json, Number, Items, Fields, null, bool, number, text, array, object, end, item, no_more, field,
}

-- The types that an annotation of the evidence can be. `either A B` is a union, whose members are tried
-- in their order, and `list_of any` is also the bare `list`.
mutual
  pub data Annotation : Type 0 where
    any none_type boolean integer floating str : Annotation
    literal : List String → Annotation
    either : Annotation → Annotation → Annotation
    typed_dict : Hints → Annotation
    dict_of : Annotation → Annotation
    list_of : Annotation → Annotation

  pub data Hints : Type 0 where
    no_hint : Hints
    hint : String → Annotation → Hints → Hints

-- `hints.get(k)`
abbrev pub find_hint : String → Hints → Option Annotation
find_hint k no_hint = none
find_hint k (hint j a hs) = let rest = find_hint k hs in if str_eq j k then some a else rest

-- the test `not args or args[i] is Any`
abbrev pub is_any : Annotation → Bool
is_any Annotation.any = true
is_any _ = false

-- `None` where a value that is not a number is documented
abbrev pub conform_null : Annotation → Option Json
conform_null Annotation.integer = none
conform_null Annotation.floating = none
conform_null _ = some null

abbrev pub or_else : Option Json → Option Json → Option Json
or_else (some got) other = some got
or_else none other = other

abbrev pub keep_item : Option Json → Items → Items
keep_item none xs = xs
keep_item (some got) xs = item got xs

abbrev pub keep_field : String → Option Json → Fields → Fields
keep_field k none fs = fs
keep_field k (some got) fs = field k got fs

-- a key that no hint names passes through
abbrev pub keep_hinted :
    String → Json → (Annotation → Option Json) → Option Annotation → Fields → Fields
keep_hinted k v read none rest = field k v rest
keep_hinted k v read (some a) rest = keep_field k (read a) rest

-- `conform`: `none` stands for `_MISSING`
unfoldable mutual
  pub conform : Json → Annotation → Option Json
  conform v Annotation.any = some v
  conform v (Annotation.either a b) = or_else (conform v a) (conform v b)
  conform null a = conform_null a
  conform (text s) (Annotation.literal options) = if contains options s then some (text s) else none
  conform (object fs) (Annotation.typed_dict hints) = some (object (conform_mapping fs hints))
  conform (object fs) (Annotation.dict_of a) =
      some (object (if is_any a then fs else conform_entries fs a))
  conform (array xs) (Annotation.list_of a) =
      some (array (if is_any a then xs else conform_items xs a))
  conform v Annotation.boolean = some v
  conform (number n) Annotation.integer = some (number n)
  conform (number n) Annotation.floating = some (number n)
  conform (text s) Annotation.str = some (text s)
  conform _ _ = none

  pub conform_items : Items → Annotation → Items
  conform_items end a = end
  conform_items (item null xs) a = conform_items xs a
  conform_items (item x xs) a = keep_item (conform x a) (conform_items xs a)

  pub conform_entries : Fields → Annotation → Fields
  conform_entries no_more a = no_more
  conform_entries (field k null fs) a = conform_entries fs a
  conform_entries (field k v fs) a = keep_field k (conform v a) (conform_entries fs a)

  pub conform_mapping : Fields → Hints → Fields
  conform_mapping no_more hints = no_more
  conform_mapping (field k v fs) hints =
      keep_hinted k v (conform v) (find_hint k hints) (conform_mapping fs hints)
