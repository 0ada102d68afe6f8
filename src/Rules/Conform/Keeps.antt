-- ===== src/Rules/Conform/Keeps.antt =====
-- A fitting value is read as it was written, and what was read once is read the same again.
use mathlib.Core.Path.{subst}
use scovant_core.Prelude.{
  String, ◌≡◌, refl, sym, ap, ◌∙◌, inl, inr, Bool, true, false, ◌&&◌, Option, some, none,
  if◌then◌else◌, Bool-cases, str_eq,
}
use scovant_core.Prelude.Json.{Json, Items, Fields, null, bool, array, object, item, field, is_null}
use scovant_core.Rules.Conform.{
  Annotation, Hints, no_hint, hint, find_hint, is_any, or_else, keep_item, keep_field, conform,
  conform_items, conform_entries, conform_mapping,
}
use scovant_core.Rules.Conform.Fits.{
  takes_null, Fits, of_any, flag, absent, left, right, an_int, a_float, a_text, a_literal, a_block,
  any_mapping, a_mapping, any_list, a_list, Each, no_items, an_item, Entries, no_entries, an_entry,
  Hinted, no_fields, undocumented, documented, is_plain, are_plain,
}

both_true : (a b : Bool) → (a && b) ≡ true → (a ≡ true) × (b ≡ true)
both_true true b h = (refl, h)
both_true false b h = absurd cc

plain_either :
    (a b : Annotation)
    → is_plain (Annotation.either a b) ≡ true
    → (b ≡ Annotation.none_type) × (is_plain a ≡ true)
unfolding is_plain
plain_either a Annotation.none_type h = (refl, h)
plain_either a _ h = absurd cc

plain_hint :
    (k : String) (hs : Hints) {a : Annotation}
    → are_plain hs ≡ true
    → find_hint k hs ≡ some a
    → is_plain a ≡ true
unfolding is_plain
plain_hint k no_hint p e = absurd cc
plain_hint k (hint j b hs) {a} p e =
    let (here, later) = both_true (is_plain b) (are_plain hs) p in
    elim (Bool-cases (str_eq j k)) [
      | inl q ↦ let same : b ≡ a = cc (rw q at e) in subst (λ c. is_plain c ≡ true) same here
      | inr q ↦ plain_hint k hs later (rw q at e)
    ]

flag_kept : (v : Json) → conform v Annotation.boolean ≡ some v
unfolding conform
flag_kept null = refl
flag_kept (bool b) = refl
flag_kept _ = refl

null_kept : (a : Annotation) → takes_null a ≡ true → conform null a ≡ some null
unfolding conform
null_kept Annotation.any t = refl
null_kept Annotation.integer t = absurd cc
null_kept Annotation.floating t = absurd cc
null_kept (Annotation.either a b) t = absurd cc
null_kept _ t = refl

or_else_assoc : (x y z : Option Json) → or_else (or_else x y) z ≡ or_else x (or_else y z)
or_else_assoc none y z = refl
or_else_assoc (some x) y z = refl

-- whatever the annotation, `None` is read as itself or not at all
null_optional : (a : Annotation) → or_else (conform null a) (some null) ≡ some null
unfolding conform
null_optional Annotation.integer = refl
null_optional Annotation.floating = refl
null_optional (Annotation.either a b) =
    or_else_assoc (conform null a) (conform null b) (some null)
    ∙ ap (or_else (conform null a)) (null_optional b)
    ∙ null_optional a
null_optional _ = refl

none_type-null : {v : Json} → Fits v Annotation.none_type → v ≡ null
none_type-null (absent t) = refl

none_kept :
    {v : Json} (a : Annotation)
    → Fits v Annotation.none_type
    → conform v (Annotation.either a Annotation.none_type) ≡ some v
unfolding conform
none_kept a f =
    subst (λ v. conform v (Annotation.either a Annotation.none_type) ≡ some v)
      (sym (none_type-null f)) (null_optional a)

entry_step :
    (k : String) (v : Json) (fs : Fields) (a : Annotation)
    → is_null v ≡ false
    → conform_entries (field k v fs) a ≡ keep_field k (conform v a) (conform_entries fs a)
unfolding conform
entry_step k null fs a n = absurd cc
entry_step k (bool b) fs a n = refl
entry_step k _ fs a n = refl

item_step :
    (v : Json) (xs : Items) (a : Annotation)
    → is_null v ≡ false
    → conform_items (item v xs) a ≡ keep_item (conform v a) (conform_items xs a)
unfolding conform
item_step null xs a n = absurd cc
item_step (bool b) xs a n = refl
item_step _ xs a n = refl

same_branch : {A : Type 0} (b : Bool) (x y : A) → y ≡ x → (if b then x else y) ≡ x
same_branch true x y e = refl
same_branch false x y e = e

mutual
  unfolding conform is_plain

  pub conform_fixed :
      {v : Json} {a : Annotation} → Fits v a → is_plain a ≡ true → conform v a ≡ some v
  conform_fixed of_any p = refl
  conform_fixed (flag {v}) p = flag_kept v
  conform_fixed (absent {a} t) p = null_kept a t
  conform_fixed (left {v} {a} {b} f) p =
      let (last, first) = plain_either a b p in
      subst (λ c. conform v (Annotation.either a c) ≡ some v) (sym last)
        (ap (λ o. or_else o (conform v Annotation.none_type)) (conform_fixed f first))
  conform_fixed (right {v} {a} {b} f) p =
      let (last, _) = plain_either a b p in
      subst (λ c. conform v (Annotation.either a c) ≡ some v) (sym last)
        (none_kept a (subst (Fits v) last f))
  conform_fixed an_int p = refl
  conform_fixed a_float p = refl
  conform_fixed a_text p = refl
  conform_fixed (a_literal {s} {options} c) p = rw c refl
  conform_fixed (a_block {fs} {hs} h) p = ap (λ gs. some (object gs)) (conform_mapping_fixed h p)
  conform_fixed any_mapping p = refl
  conform_fixed (a_mapping {fs} {a} h) p =
      ap (λ gs. some (object gs))
        (same_branch (is_any a) fs (conform_entries fs a) (conform_entries_fixed h p))
  conform_fixed any_list p = refl
  conform_fixed (a_list {xs} {a} h) p =
      ap (λ ys. some (array ys))
        (same_branch (is_any a) xs (conform_items xs a) (conform_items_fixed h p))

  conform_items_fixed :
      {xs : Items} {a : Annotation} → Each xs a → is_plain a ≡ true → conform_items xs a ≡ xs
  conform_items_fixed no_items p = refl
  conform_items_fixed (an_item {v} {xs} {a} n f h) p =
      item_step v xs a n
      ∙ ap (λ o. keep_item o (conform_items xs a)) (conform_fixed f p)
      ∙ ap (item v) (conform_items_fixed h p)

  conform_entries_fixed :
      {fs : Fields} {a : Annotation} → Entries fs a → is_plain a ≡ true → conform_entries fs a ≡ fs
  conform_entries_fixed no_entries p = refl
  conform_entries_fixed (an_entry {k} {v} {fs} {a} n f h) p =
      entry_step k v fs a n
      ∙ ap (λ o. keep_field k o (conform_entries fs a)) (conform_fixed f p)
      ∙ ap (field k v) (conform_entries_fixed h p)

  conform_mapping_fixed :
      {fs : Fields} {hs : Hints} → Hinted fs hs → are_plain hs ≡ true → conform_mapping fs hs ≡ fs
  conform_mapping_fixed no_fields p = refl
  conform_mapping_fixed (undocumented {k} {v} {fs} {hs} e h) p =
      rw e (ap (field k v) (conform_mapping_fixed h p))
  conform_mapping_fixed (documented {k} {v} {fs} {hs} {a} e f h) p =
      rw (e, conform_fixed f (plain_hint k hs p e)) (ap (field k v) (conform_mapping_fixed h p))
