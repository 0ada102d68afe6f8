-- ===== src/Rules/Conform/Field.antt =====
-- What a rule knows of a field of documented evidence: it is absent, or it fits its annotation.
use scovant_core.Prelude.{
  String, ◌≡◌, refl, ap, ◌∙◌, ◌⊎◌, inl, inr, some, Bool-cases, str_eq, eq_iff,
}
use scovant_core.Prelude.Json.{
  Json, Fields, Items, null, text, array, object, no_more, field, find_field,
}
use scovant_core.Rules.Conform.{Annotation, str, typed_dict, dict_of, list_of, Hints, find_hint}
use mathlib.Core.Path.{subst}
use scovant_core.Rules.Conform.Fits.{
  Fits, absent, a_text, a_block, any_mapping, a_mapping, any_list, a_list, Hinted, undocumented,
  documented,
}

pub field-Fits :
    (k : String) (fs : Fields) (hs : Hints) {a : Annotation}
    → Hinted fs hs
    → find_hint k hs ≡ some a
    → (find_field k fs ≡ null) ⊎ Fits (find_field k fs) a
field-Fits k no_more hs h q = inl refl
field-Fits k (field j v fs) hs {a} (undocumented e h) q = elim (Bool-cases (str_eq j k)) [
  | inl b ↦
      let same : j ≡ k = (eq_iff j k).0 b in
      let two : find_hint j hs ≡ some a = ap (λ i. find_hint i hs) same ∙ q in absurd cc
  | inr b ↦ rw b (field-Fits k fs hs h q)
]
field-Fits k (field j v fs) hs {a} (documented {a = c} e f h) q = elim (Bool-cases (str_eq j k)) [
  | inl b ↦
      let same : j ≡ k = (eq_iff j k).0 b in
      let two : find_hint j hs ≡ some a = ap (λ i. find_hint i hs) same ∙ q in
      let one : c ≡ a = cc in rw b (inr (subst (Fits v) one f))
  | inr b ↦ rw b (field-Fits k fs hs h q)
]

pub block_shape :
    {v : Json} {hs : Hints}
    → Fits v (typed_dict hs)
    → (v ≡ null) ⊎ ((fs : Fields) × (v ≡ object fs) × Hinted fs hs)
block_shape (absent t) = inl refl
block_shape (a_block {fs} h) = inr (fs, refl, h)

pub mapping_shape :
    {v : Json} {a : Annotation}
    → Fits v (dict_of a)
    → (v ≡ null) ⊎ ((fs : Fields) × (v ≡ object fs))
mapping_shape (absent t) = inl refl
mapping_shape (any_mapping {fs}) = inr (fs, refl)
mapping_shape (a_mapping {fs} h) = inr (fs, refl)

pub list_shape :
    {v : Json} {a : Annotation} → Fits v (list_of a) → (v ≡ null) ⊎ ((xs : Items) × (v ≡ array xs))
list_shape (absent t) = inl refl
list_shape (any_list {xs}) = inr (xs, refl)
list_shape (a_list {xs} h) = inr (xs, refl)

pub text_shape : {v : Json} → Fits v str → (v ≡ null) ⊎ ((s : String) × (v ≡ text s))
text_shape (absent t) = inl refl
text_shape (a_text {s}) = inr (s, refl)

pub fits_block : {fs : Fields} {hs : Hints} → Fits (object fs) (typed_dict hs) → Hinted fs hs
fits_block (a_block h) = h
