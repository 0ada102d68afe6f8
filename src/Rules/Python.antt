-- ===== src/Rules/Python.antt =====
-- What the bodies of rules do with a value of unknown shape, and what that raises. An exception is a
-- value of `PyError`, after Python's classes.
use scovant_core.Prelude.{
  String, Bool, true, false, ◌||◌, List, [], ◌∷◌, if◌then◌else◌, str_eq, occurs, Result, ok, err,
  is_ok, ◌>>=◌, ◌≡◌, refl, inl, inr, Bool-cases,
}
use scovant_core.Prelude.Json.{
  Json, Items, Fields, null, text, array, object, end, item, no_more, field, truthy, find_field,
  has_field, is_text,
}

pub data PyError : Type 0 where
  attribute_error type_error value_error overflow_error key_error : PyError

-- `v.get(k, d)`
abbrev pub get_default : String → Json → Json → Result PyError Json
get_default k d (object fs) = ok (if has_field k fs then find_field k fs else d)
get_default k d _ = err attribute_error

-- `v.get(k)`
abbrev pub get_key : String → Json → Result PyError Json
get_key k v = get_default k null v

abbrev pub list_items : Items → List Json
list_items end = []
list_items (item x xs) = x ∷ list_items xs

-- `v[k]`, with a text for the key
abbrev pub get_item : String → Json → Result PyError Json
get_item k (object fs) = if has_field k fs then ok (find_field k fs) else err key_error
get_item k _ = err type_error

-- `for x in v` with a body that first calls `x.get`, which the keys of a dictionary and the letters of a
-- text do not have
abbrev pub dicts_in : Json → Result PyError (List Json)
dicts_in (array xs) = ok (list_items xs)
dicts_in (object fs) = if truthy (object fs) then err attribute_error else ok []
dicts_in (text s) = if truthy (text s) then err attribute_error else ok []
dicts_in _ = err type_error

-- `any(p(x) for x in xs)`, which stops at the first that holds
unfoldable pub any_in : {A : Type 0} → (A → Result PyError Bool) → List A → Result PyError Bool
any_in p [] = ok false
any_in p (x ∷ xs) = let rest = any_in p xs in p x >>= λ holds. if holds then ok true else rest

-- `p(x) or q`
abbrev pub or_else : Bool → Result PyError Bool → Result PyError Bool
or_else true q = ok true
or_else false q = q

-- `k in v` for a dictionary that is one
abbrev pub has_key : String → Json → Bool
has_key k (object fs) = has_field k fs
has_key k _ = false

-- `v or {}`, `v or []`, `v or ""`
abbrev pub or_value : Json → Json → Json
or_value d v = if truthy v then v else d

abbrev pub has_text : String → Items → Bool
has_text s end = false
has_text s (item x xs) = is_text s x || has_text s xs

-- `s in v`
abbrev pub is_in : String → Json → Result PyError Bool
is_in s (array xs) = ok (has_text s xs)
is_in s (text t) = ok (occurs s t)
is_in s (object fs) = ok (has_field s fs)
is_in s _ = err type_error

-- `v if isinstance(v, list) else []`
abbrev pub items_or_none : Json → List Json
items_or_none (array xs) = list_items xs
items_or_none _ = []

-- `[x for x in xs if p(x)]`, where the test may raise
unfoldable pub keep_in : {A : Type 0} → (A → Result PyError Bool) → List A → Result PyError (List A)
keep_in p [] = ok []
keep_in p (x ∷ xs) = do yes_x ← p x; rest ← keep_in p xs; ok (if yes_x then x ∷ rest else rest)

-- a step that cannot raise
pub then_ok :
    {A B : Type 0} (m : Result PyError A) (f : A → B) → is_ok (m >>= λ x. ok (f x)) ≡ is_ok m
then_ok (err e) f = refl
then_ok (ok x) f = refl

-- `find_field` is `null` where the key is not there
pub find_missing :
    (k : String) (fs : Fields)
    → (if has_field k fs then find_field k fs else null) ≡ find_field k fs
find_missing k no_more = refl
find_missing k (field j v fs) = elim (Bool-cases (str_eq j k)) [
  | inl e ↦ rw e refl
  | inr e ↦ rw e (find_missing k fs)
]
