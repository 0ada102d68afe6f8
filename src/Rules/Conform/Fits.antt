-- ===== src/Rules/Conform/Fits.antt =====
-- The values that the documentation describes, and the annotations whose unions are with `None` alone.
use scovant_core.Prelude.{String, ◌≡◌, Bool, true, false, ◌&&◌, List, contains, some, none}
use scovant_core.Prelude.Json.{
  Json, Number, Items, Fields, null, number, text, array, object, end, item, no_more, field,
  is_null,
}
use scovant_core.Rules.Conform.{Annotation, Hints, no_hint, hint, find_hint}

-- a union takes `None` through a member
abbrev pub takes_null : Annotation → Bool
takes_null Annotation.integer = false
takes_null Annotation.floating = false
takes_null (Annotation.either a b) = false
takes_null _ = true

-- A flag is read as it was written. In a list or a mapping no entry is `None`, unless anything goes.
mutual
  pub data Fits : Json → Annotation → Type 0 where
    of_any : {v : Json} → Fits v Annotation.any
    flag : {v : Json} → Fits v Annotation.boolean
    absent : {a : Annotation} → takes_null a ≡ true → Fits null a
    left : {v : Json} {a b : Annotation} → Fits v a → Fits v (Annotation.either a b)
    right : {v : Json} {a b : Annotation} → Fits v b → Fits v (Annotation.either a b)
    an_int : {n : Number} → Fits (number n) Annotation.integer
    a_float : {n : Number} → Fits (number n) Annotation.floating
    a_text : {s : String} → Fits (text s) Annotation.str
    a_literal :
        {s : String} {options : List String}
        → contains options s ≡ true
        → Fits (text s) (Annotation.literal options)
    a_block :
        {fs : Fields} {hs : Hints} → Hinted fs hs → Fits (object fs) (Annotation.typed_dict hs)
    any_mapping : {fs : Fields} → Fits (object fs) (Annotation.dict_of Annotation.any)
    a_mapping :
        {fs : Fields} {a : Annotation} → Entries fs a → Fits (object fs) (Annotation.dict_of a)
    any_list : {xs : Items} → Fits (array xs) (Annotation.list_of Annotation.any)
    a_list : {xs : Items} {a : Annotation} → Each xs a → Fits (array xs) (Annotation.list_of a)

  pub data Each : Items → Annotation → Type 0 where
    no_items : {a : Annotation} → Each end a
    an_item :
        {v : Json} {xs : Items} {a : Annotation}
        → is_null v ≡ false
        → Fits v a
        → Each xs a
        → Each (item v xs) a

  pub data Entries : Fields → Annotation → Type 0 where
    no_entries : {a : Annotation} → Entries no_more a
    an_entry :
        {k : String} {v : Json} {fs : Fields} {a : Annotation}
        → is_null v ≡ false
        → Fits v a
        → Entries fs a
        → Entries (field k v fs) a

  pub data Hinted : Fields → Hints → Type 0 where
    no_fields : {hs : Hints} → Hinted no_more hs
    undocumented :
        {k : String} {v : Json} {fs : Fields} {hs : Hints}
        → find_hint k hs ≡ none
        → Hinted fs hs
        → Hinted (field k v fs) hs
    documented :
        {k : String} {v : Json} {fs : Fields} {hs : Hints} {a : Annotation}
        → find_hint k hs ≡ some a
        → Fits v a
        → Hinted fs hs
        → Hinted (field k v fs) hs

unfoldable mutual
  pub is_plain : Annotation → Bool
  is_plain (Annotation.either a Annotation.none_type) = is_plain a
  is_plain (Annotation.either a b) = false
  is_plain (Annotation.typed_dict hs) = are_plain hs
  is_plain (Annotation.dict_of a) = is_plain a
  is_plain (Annotation.list_of a) = is_plain a
  is_plain _ = true

  pub are_plain : Hints → Bool
  are_plain no_hint = true
  are_plain (hint k a hs) = is_plain a && are_plain hs
