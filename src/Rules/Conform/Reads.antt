-- ===== src/Rules/Conform/Reads.antt =====
-- What a rule gets: a value that fits its documentation, and a fitting value as it was written.
use mathlib.Core.Path.{subst}
use scovant_core.Prelude.{
  String, ◌≡◌, refl, sym, ◌∙◌, inl, inr, Bool, true, false, Option, some, none, Option-cases,
  contains, if◌then◌else◌, Bool-cases, List,
}
use scovant_core.Prelude.Json.{
  Json, Items, Fields, null, number, text, array, object, end, item, no_more, field, is_null,
}
use scovant_core.Rules.Conform.{
  Annotation, Hints, find_hint, is_any, or_else, keep_item, keep_field, keep_hinted, conform,
  conform_null, conform_items, conform_entries, conform_mapping,
}
use scovant_core.Rules.Conform.Fits.{
  takes_null, Fits, of_any, flag, absent, left, right, an_int, a_float, a_text, a_literal, a_block,
  any_mapping, a_mapping, any_list, a_list, Each, no_items, an_item, Entries, no_entries, an_entry,
  Hinted, no_fields, undocumented, documented,
}

carry : (P : Json → Type 0) {x w : Json} → ◌≡◌ {A = Option Json} (some x) (some w) → P x → P w
carry P e h = subst P (cc) h

literal-Fits :
    (b : Bool) (s : String) (options : List String) {w : Json}
    → contains options s ≡ b
    → (if b then some (text s) else none) ≡ some w
    → Fits w (Annotation.literal options)
literal-Fits true s options c h = carry (λ x. Fits x (Annotation.literal options)) h (a_literal c)
literal-Fits false s options c h = absurd cc

either-Fits :
    {a b : Annotation} (l r : Option Json) {w : Json}
    → ((x : Json) → l ≡ some x → Fits x a)
    → ((x : Json) → r ≡ some x → Fits x b)
    → or_else l r ≡ some w
    → Fits w (Annotation.either a b)
either-Fits (some x) r {w} f g h = left (f w h)
either-Fits none r {w} f g h = right (g w h)

null-Fits :
    (a : Annotation) {w : Json}
    → takes_null a ≡ true
    → ◌≡◌ {A = Option Json} (some null) (some w)
    → Fits w a
null-Fits a t h = carry (λ w. Fits w a) h (absent t)

is_any-eq : (a : Annotation) → is_any a ≡ true → a ≡ Annotation.any
is_any-eq Annotation.any h = refl
is_any-eq _ h = absurd cc

mapping-Fits :
    (fs gs : Fields) (a : Annotation)
    → Entries gs a
    → Fits (object (if is_any a then fs else gs)) (Annotation.dict_of a)
mapping-Fits fs gs a h = elim (Bool-cases (is_any a)) [
  | inl e ↦
      rw e (subst (λ b. Fits (object fs) (Annotation.dict_of b)) (sym (is_any-eq a e)) any_mapping)
  | inr e ↦ rw e (a_mapping h)
]

list-Fits :
    (xs ys : Items) (a : Annotation)
    → Each ys a
    → Fits (array (if is_any a then xs else ys)) (Annotation.list_of a)
list-Fits xs ys a h = elim (Bool-cases (is_any a)) [
  | inl e ↦
      rw e (subst (λ b. Fits (array xs) (Annotation.list_of b)) (sym (is_any-eq a e)) any_list)
  | inr e ↦ rw e (a_list h)
]

-- `conform` reads as `None` what is `None`, and nothing else
either-null :
    (v : Json) (l r : Option Json) {w : Json}
    → ((x : Json) → l ≡ some x → is_null x ≡ is_null v)
    → ((x : Json) → r ≡ some x → is_null x ≡ is_null v)
    → or_else l r ≡ some w
    → is_null w ≡ is_null v
either-null v (some x) r {w} f g h = f w h
either-null v none r {w} f g h = g w h

literal-null :
    (b : Bool) (s : String) {w : Json}
    → (if b then some (text s) else none) ≡ some w
    → is_null w ≡ false
literal-null true s h = carry (λ w. is_null w ≡ false) h refl
literal-null false s h = absurd cc

conform_null-null : (a : Annotation) {w : Json} → conform_null a ≡ some w → is_null w ≡ true
conform_null-null Annotation.integer h = absurd cc
conform_null-null Annotation.floating h = absurd cc
conform_null-null _ h = carry (λ w. is_null w ≡ true) h refl

conform-is_null :
    (v : Json) (a : Annotation) {w : Json} → conform v a ≡ some w → is_null w ≡ is_null v
unfolding conform
conform-is_null v Annotation.any h = carry (λ w. is_null w ≡ is_null v) h refl
conform-is_null v (Annotation.either a b) h =
    either-null v (conform v a) (conform v b) (λ x e. conform-is_null v a e)
      (λ x e. conform-is_null v b e) h
conform-is_null null a h = conform_null-null a h
conform-is_null (text s) (Annotation.literal options) h = literal-null (contains options s) s h
conform-is_null (object fs) (Annotation.typed_dict hints) h = carry (λ w. is_null w ≡ false) h refl
conform-is_null (object fs) (Annotation.dict_of a) h = carry (λ w. is_null w ≡ false) h refl
conform-is_null (array xs) (Annotation.list_of a) h = carry (λ w. is_null w ≡ false) h refl
conform-is_null v Annotation.boolean h = carry (λ w. is_null w ≡ is_null v) h refl
conform-is_null (number n) Annotation.integer h = carry (λ w. is_null w ≡ false) h refl
conform-is_null (number n) Annotation.floating h = carry (λ w. is_null w ≡ false) h refl
conform-is_null (text s) Annotation.str h = carry (λ w. is_null w ≡ false) h refl
conform-is_null _ _ h = absurd cc

item-Each :
    (x : Json) (o : Option Json) (a : Annotation) (ys : Items)
    → is_null x ≡ false
    → ((w : Json) → o ≡ some w → Fits w a)
    → ((w : Json) → o ≡ some w → is_null w ≡ is_null x)
    → Each ys a
    → Each (keep_item o ys) a
item-Each x none a ys n f g h = h
item-Each x (some w) a ys n f g h = an_item (g w refl ∙ n) (f w refl) h

field-Entries :
    (k : String) (x : Json) (o : Option Json) (a : Annotation) (gs : Fields)
    → is_null x ≡ false
    → ((w : Json) → o ≡ some w → Fits w a)
    → ((w : Json) → o ≡ some w → is_null w ≡ is_null x)
    → Entries gs a
    → Entries (keep_field k o gs) a
field-Entries k x none a gs n f g h = h
field-Entries k x (some w) a gs n f g h = an_entry (g w refl ∙ n) (f w refl) h

kept-Hinted :
    (k : String) (o : Option Json) (a : Annotation) (gs : Fields) (hs : Hints)
    → find_hint k hs ≡ some a
    → ((w : Json) → o ≡ some w → Fits w a)
    → Hinted gs hs
    → Hinted (keep_field k o gs) hs
kept-Hinted k none a gs hs e f h = h
kept-Hinted k (some w) a gs hs e f h = documented e (f w refl) h

field-Hinted :
    (k : String) (v : Json) (hs : Hints) (gs : Fields)
    → ((a : Annotation) (w : Json) → conform v a ≡ some w → Fits w a)
    → Hinted gs hs
    → Hinted (keep_hinted k v (conform v) (find_hint k hs) gs) hs
field-Hinted k v hs gs f h = elim (Option-cases (find_hint k hs)) [
  | inl e ↦ rw e (undocumented e h)
  | inr (a, e) ↦ rw e (kept-Hinted k (conform v a) a gs hs e (f a) h)
]

mutual
  unfolding conform

  pub conform-Fits : (v : Json) (a : Annotation) {w : Json} → conform v a ≡ some w → Fits w a
  conform-Fits v Annotation.any h = of_any
  conform-Fits v (Annotation.either a b) h =
      either-Fits (conform v a) (conform v b) (λ x e. conform-Fits v a e)
        (λ x e. conform-Fits v b e) h
  conform-Fits null Annotation.integer h = absurd cc
  conform-Fits null Annotation.floating h = absurd cc
  conform-Fits null a h = null-Fits a refl h
  conform-Fits (text s) (Annotation.literal options) h =
      literal-Fits (contains options s) s options refl h
  conform-Fits (object fs) (Annotation.typed_dict hints) h =
      carry (λ w. Fits w (Annotation.typed_dict hints)) h
        (a_block (conform_mapping-Hinted fs hints))
  conform-Fits (object fs) (Annotation.dict_of a) h =
      carry (λ w. Fits w (Annotation.dict_of a)) h
        (mapping-Fits fs (conform_entries fs a) a (conform_entries-Entries fs a))
  conform-Fits (array xs) (Annotation.list_of a) h =
      carry (λ w. Fits w (Annotation.list_of a)) h
        (list-Fits xs (conform_items xs a) a (conform_items-Each xs a))
  conform-Fits v Annotation.boolean h = flag
  conform-Fits (number n) Annotation.integer h = carry (λ w. Fits w Annotation.integer) h an_int
  conform-Fits (number n) Annotation.floating h = carry (λ w. Fits w Annotation.floating) h a_float
  conform-Fits (text s) Annotation.str h = carry (λ w. Fits w Annotation.str) h a_text
  conform-Fits _ _ h = absurd cc

  conform_items-Each : (xs : Items) (a : Annotation) → Each (conform_items xs a) a
  conform_items-Each end a = no_items
  conform_items-Each (item null xs) a = conform_items-Each xs a
  conform_items-Each (item x xs) a =
      item-Each x (conform x a) a (conform_items xs a) refl (λ w e. conform-Fits x a e)
        (λ w e. conform-is_null x a e) (conform_items-Each xs a)

  conform_entries-Entries : (fs : Fields) (a : Annotation) → Entries (conform_entries fs a) a
  conform_entries-Entries no_more a = no_entries
  conform_entries-Entries (field k null fs) a = conform_entries-Entries fs a
  conform_entries-Entries (field k x fs) a =
      field-Entries k x (conform x a) a (conform_entries fs a) refl (λ w e. conform-Fits x a e)
        (λ w e. conform-is_null x a e) (conform_entries-Entries fs a)

  conform_mapping-Hinted : (fs : Fields) (hs : Hints) → Hinted (conform_mapping fs hs) hs
  conform_mapping-Hinted no_more hs = no_fields
  conform_mapping-Hinted (field k v fs) hs =
      field-Hinted k v hs (conform_mapping fs hs) (λ a w e. conform-Fits v a e)
        (conform_mapping-Hinted fs hs)
