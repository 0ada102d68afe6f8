-- ===== src/Rules/Structured/Raises.antt =====
-- On what the rule on prices raises.
use scovant_core.Prelude.{
  String, ◌≡◌, refl, sym, ap, ◌∙◌, inl, inr, Bool, true, false, not, ◌&&◌, ◌||◌, Option, some, none,
  List, [], ◌∷◌, ◌++◌, map, if◌then◌else◌, Bool-cases, Result, ok, err, is_ok, ◌>>=◌,
}
use scovant_core.Prelude.Json
use scovant_core.Prelude.Json.{
  Json, Number, Fields, null, bool, number, int, float, text, array, object, end, no_more, field,
  find_field, has_field, truthy, is_object,
}
use scovant_core.Rules.Conform.{conform_mapping}
use scovant_core.Rules.Conform.Fits.{Hinted, no_fields}
use scovant_core.Rules.Conform.Field.{fits_block}
use scovant_core.Rules.Evidence.{page_evidence}
use scovant_core.Rules.Conforming.{Kind, build, conformed_page}
use scovant_core.Rules.Conforming.Documented.{build-Fits}
use scovant_core.Rules.Python.{PyError, then_ok, find_missing}
use scovant_core.Rules.Products.{find_products, get_offers, is_valid_price, too_large}
use scovant_core.Rules.Structured.{
  page_products, bad_offer, bad_price, or_next, price_finding, evaluate_price,
}

-- what `conform_page` gives is a dictionary with documented fields
conformed_shape :
    (v : Json) → (gs : Fields) × (conformed_page v ≡ object gs) × Hinted gs page_evidence
unfolding build
conformed_shape (object fs) =
    (conform_mapping fs page_evidence, refl, fits_block (build-Fits Kind.page (object fs) refl))
conformed_shape null = (no_more, refl, no_fields)
conformed_shape _ = (no_more, refl, no_fields)

schema_of : Fields → Json
schema_of gs = if has_field "schema_org" gs then find_field "schema_org" gs else array end

page_products-ok : (gs : Fields) → page_products (object gs) ≡ ok (find_products (schema_of gs))
unfolding page_products schema_of
page_products-ok gs = refl

-- the prices of all offers of all products, in their order
abbrev pub prices_of : List Json → List Json
unfolding get_offers
prices_of [] = []
prices_of (product ∷ products) =
    map (λ o. Json.get "price" o) (get_offers product) ++ prices_of products

abbrev pub is_too_large : Json → Bool
is_too_large (number (int negative n)) = too_large n
is_too_large _ = false

abbrev pub holds : Result PyError Bool → Bool
holds (ok b) = b
holds (err e) = false

-- a price that `float` cannot take comes before any that is not valid
abbrev pub meets_too_large : List Json → Bool
unfolding is_valid_price
meets_too_large [] = false
meets_too_large (p ∷ ps) =
    let rest = meets_too_large ps in is_too_large p || holds (is_valid_price p) && rest

is_valid_price-is_ok : (p : Json) → is_ok (is_valid_price p) ≡ not (is_too_large p)
unfolding is_valid_price
is_valid_price-is_ok (number (int negative n)) = elim (Bool-cases (too_large n)) [
  | inl e ↦ rw e refl
  | inr e ↦ rw e refl
]
is_valid_price-is_ok (number (float negative n d)) = refl
is_valid_price-is_ok (bool b) = refl
is_valid_price-is_ok (text s) = refl
is_valid_price-is_ok _ = refl

-- the two loops as one over the prices
first_bad : List Json → Result PyError (Option Json)
first_bad [] = ok none
first_bad (p ∷ ps) =
    let rest = first_bad ps in is_valid_price p >>= λ valid. if valid then rest else ok (some p)

bad_offer-first_bad :
    (offers : List Json) → bad_offer offers ≡ first_bad (map (λ o. Json.get "price" o) offers)
unfolding bad_offer first_bad
bad_offer-first_bad [] = refl
bad_offer-first_bad (o ∷ os) =
    ap
      (λ rest. is_valid_price (Json.get "price" o) >>= λ valid.
        if valid then rest else ok (some (Json.get "price" o)))
      (bad_offer-first_bad os)

first_bad_next :
    (p : Json) (ps : List Json) (r : Result PyError Bool) (rest next : Result PyError (Option Json))
    → (r >>= λ valid. if valid then (rest >>= λ found. or_next found next) else ok (some p))
      ≡ ((r >>= λ valid. if valid then rest else ok (some p)) >>= λ found. or_next found next)
first_bad_next p ps (err e) rest next = refl
first_bad_next p ps (ok true) rest next = refl
first_bad_next p ps (ok false) rest next = refl

first_bad-append :
    (ps qs : List Json)
    → first_bad (ps ++ qs) ≡ (first_bad ps >>= λ found. or_next found (first_bad qs))
unfolding first_bad
first_bad-append [] qs = refl
first_bad-append (p ∷ ps) qs =
    ap (λ rest. is_valid_price p >>= λ valid. if valid then rest else ok (some p))
      (first_bad-append ps qs)
    ∙ first_bad_next p ps (is_valid_price p) (first_bad ps) (first_bad qs)

bad_price-first_bad : (products : List Json) → bad_price products ≡ first_bad (prices_of products)
unfolding bad_price
bad_price-first_bad [] = unfold first_bad in refl
bad_price-first_bad (p ∷ ps) =
    ap (λ rest. bad_offer (get_offers p) >>= λ found. or_next found rest) (bad_price-first_bad ps)
    ∙ ap (λ r. r >>= λ found. or_next found (first_bad (prices_of ps)))
        (bad_offer-first_bad (get_offers p))
    ∙ sym (first_bad-append (map (λ o. Json.get "price" o) (get_offers p)) (prices_of ps))

first_bad_is_ok :
    (r : Result PyError Bool) (p : Json) (rest : Result PyError (Option Json)) (large later : Bool)
    → is_ok r ≡ not large
    → is_ok rest ≡ not later
    → is_ok (r >>= λ valid. if valid then rest else ok (some p)) ≡ not (large || holds r && later)
first_bad_is_ok (err e) p rest true later h k = refl
first_bad_is_ok (err e) p rest false later h k = absurd cc
first_bad_is_ok (ok valid) p rest true later h k = absurd cc
first_bad_is_ok (ok true) p rest false later h k = k
first_bad_is_ok (ok false) p rest false later h k = refl

first_bad-is_ok : (ps : List Json) → is_ok (first_bad ps) ≡ not (meets_too_large ps)
unfolding first_bad meets_too_large
first_bad-is_ok [] = refl
first_bad-is_ok (p ∷ ps) =
    first_bad_is_ok (is_valid_price p) p (first_bad ps) (is_too_large p) (meets_too_large ps)
      (is_valid_price-is_ok p) (first_bad-is_ok ps)

schema_of_products :
    (gs : Fields) → find_products (schema_of gs) ≡ find_products (find_field "schema_org" gs)
unfolding schema_of find_products
schema_of_products gs = elim (Bool-cases (has_field "schema_org" gs)) [
  | inl e ↦ rw e refl
  | inr e ↦
      let missing : null ≡ find_field "schema_org" gs = rw e at (find_missing "schema_org" gs) in
      rw e (ap find_products missing)
]

-- The rule PRICE_MISSING_INVALID raises on documented evidence exactly if, among the prices of all offers
-- of all products in their order, an integer too large for a double, of 2 ^ 1024 - 2 ^ 970 or more, comes
-- before any price that is not valid: `float` raises an `OverflowError` there, which `is_valid_price`
-- does not catch.
pub evaluate_price-is_ok :
    (show : Json → String) (v domain : Json)
    → is_ok (evaluate_price show (conformed_page v) domain)
      ≡ not (meets_too_large (prices_of (find_products (Json.get "schema_org" (conformed_page v)))))
unfolding evaluate_price conformed_shape schema_of
evaluate_price-is_ok show v domain =
    let (gs, e, h) = conformed_shape v in
    rw e (
      then_ok (bad_price (find_products (schema_of gs))) (price_finding show)
      ∙ ap (λ ps. is_ok (bad_price ps)) (schema_of_products gs)
      ∙ ap is_ok (bad_price-first_bad (find_products (find_field "schema_org" gs)))
      ∙ first_bad-is_ok (prices_of (find_products (find_field "schema_org" gs))))
