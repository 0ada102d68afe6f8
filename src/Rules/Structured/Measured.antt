-- ===== src/Rules/Structured/Measured.antt =====
-- The two questions that a rule on products answers, and how the answers fit.
use mathlib.Core.Path.{subst}
use scovant_core.Prelude.{
  String, ◌≡◌, refl, sym, ap, ◌∙◌, inl, inr, Bool, true, false, not, ◌&&◌, ◌||◌, Option, some, none,
  List, [], ◌∷◌, is_empty, any, if◌then◌else◌, Bool-cases, Result, ok, err, ◌>>=◌,
}
use scovant_core.Prelude.Json.{
  Json, Fields, array, object, end, item, find_field, has_field, truthy,
}
use scovant_core.R2.Outcome.{OutcomeState}
use scovant_core.Rules.{Finding, MeasureCtx}
use scovant_core.Rules.Python.{PyError, or_value}
use scovant_core.Rules.Products.{gated, find_products, get_offers}
use scovant_core.Rules.Structured.{
  page_products, found_if, has_no_offers, lacks_availability, bad_offer, bad_price, price_finding,
  of_products, evaluate_offers, evaluate_availability, evaluate_price, products_measured,
}

-- the rules that are measured on the products of a page
pub data ProductRule : Type 0 where
  offers price availability : ProductRule

abbrev pub code_of : ProductRule → String
code_of offers = "MISSING_OFFER_DATA"
code_of price = "PRICE_MISSING_INVALID"
code_of availability = "MISSING_AVAILABILITY"

unfoldable pub evaluate_of :
    (Json → String) → ProductRule → Json → Json → Result PyError (List Finding)
unfolding evaluate_offers evaluate_price evaluate_availability
evaluate_of show offers = evaluate_offers
evaluate_of show price = evaluate_price show
evaluate_of show availability = evaluate_availability

abbrev pub needs_offers : ProductRule → Bool
needs_offers offers = false
needs_offers _ = true

-- `MissingOfferData.measure`, `PriceMissingOrInvalid.measure` and `AvailabilityMissing.measure`
unfoldable pub measure_of : ProductRule → Json → MeasureCtx → Option OutcomeState
unfolding products_measured
measure_of r page ctx = products_measured (code_of r) page ctx (needs_offers r)

abbrev has_offers : List Json → Bool
unfolding has_no_offers
has_offers products = any (λ p. not (has_no_offers p)) products

-- what a finding shows of the products of its page
abbrev Shown : ProductRule → List Json → Type 0
unfolding has_offers
Shown r products =
    (is_empty products ≡ false) × ((needs_offers r && not (has_offers products)) ≡ false)

offers_shown :
    (products : List Json) {f : Finding} {fs : List Finding}
    → found_if (any has_no_offers products) ≡ f ∷ fs
    → Shown offers products
unfolding Shown has_no_offers
offers_shown [] h = absurd cc
offers_shown (p ∷ ps) h = (refl, refl)

or_true : (a b : Bool) → b ≡ true → (a || b) ≡ true
or_true true b h = refl
or_true false b h = h

some_lacks : (os : List Json) → any lacks_availability os ≡ true → is_empty os ≡ false
some_lacks [] h = absurd cc
some_lacks (o ∷ os) h = refl

availability_any :
    (products : List Json)
    → any (λ p. any lacks_availability (get_offers p)) products ≡ true
    → has_offers products ≡ true
unfolding has_offers has_no_offers
availability_any [] h = absurd cc
availability_any (p ∷ ps) h = elim (Bool-cases (any lacks_availability (get_offers p))) [
  | inl e ↦ rw (some_lacks (get_offers p) e) refl
  | inr e ↦ or_true (not (is_empty (get_offers p))) _ (availability_any ps (rw e at h))
]

availability_shown :
    (products : List Json) (b : Bool) {f : Finding} {fs : List Finding}
    → any (λ p. any lacks_availability (get_offers p)) products ≡ b
    → found_if b ≡ f ∷ fs
    → Shown availability products
unfolding Shown has_offers has_no_offers
availability_shown [] b e h = let none_found : b ≡ false = sym e in absurd (cc)
availability_shown (p ∷ ps) false e h = absurd cc
availability_shown (p ∷ ps) true e h = (refl, ap not (availability_any (p ∷ ps) e))

is_empty-eq : {A : Type 0} (xs : List A) → is_empty xs ≡ true → xs ≡ []
is_empty-eq [] h = refl
is_empty-eq (x ∷ xs) h = absurd cc

bad_price_offers :
    (products : List Json) {x : Json}
    → bad_price products ≡ ok (some x)
    → has_offers products ≡ true
unfolding bad_price bad_offer has_offers has_no_offers
bad_price_offers [] h = absurd cc
bad_price_offers (p ∷ ps) h = elim (Bool-cases (is_empty (get_offers p))) [
  | inl e ↦
      or_true (not (is_empty (get_offers p))) _
        (bad_price_offers ps (rw (is_empty-eq (get_offers p) e) at h))
  | inr e ↦ rw e refl
]

price_shown :
    (show : Json → String) (products : List Json) (r : Result PyError (Option Json)) {f : Finding}
    {fs : List Finding}
    → bad_price products ≡ r
    → (r >>= λ found. ok (price_finding show found)) ≡ ok (f ∷ fs)
    → Shown price products
unfolding Shown has_offers has_no_offers bad_price
price_shown show products (err e) q h = absurd cc
price_shown show products (ok none) q h = absurd cc
price_shown show [] (ok (some x)) q h = absurd cc
price_shown show (p ∷ ps) (ok (some x)) q h =
    (refl, ap not (unfold has_offers in bad_price_offers (p ∷ ps) q))

ok_list : {xs ys : List Finding} → ◌≡◌ {A = Result PyError (List Finding)} (ok xs) (ok ys) → xs ≡ ys
ok_list h = cc

schema_of : Fields → Json
schema_of gs = if has_field "schema_org" gs then find_field "schema_org" gs else array end

shown :
    (show : Json → String) (r : ProductRule) (gs : Fields) (dom : Json) {f : Finding}
    {fs : List Finding}
    → evaluate_of show r (object gs) dom ≡ ok (f ∷ fs)
    → Shown r (find_products (schema_of gs))
unfolding evaluate_of page_products schema_of
shown show offers gs dom h = offers_shown (find_products (schema_of gs)) (ok_list h)
shown show price gs dom h =
    price_shown show (find_products (schema_of gs)) (bad_price (find_products (schema_of gs))) refl
      h
shown show availability gs dom h =
    availability_shown (find_products (schema_of gs)) _ refl (ok_list h)

falsy_products :
    (b : Bool) (s : Json)
    → truthy s ≡ b
    → find_products (if b then s else array end) ≡ find_products s
unfolding find_products
falsy_products true s e = refl
falsy_products false (array end) e = refl
falsy_products false (array (item x xs)) e = absurd cc
falsy_products false _ e = refl

or_value_products : (s : Json) → find_products (or_value (array end) s) ≡ find_products s
or_value_products s = falsy_products (truthy s) s refl

of_products-Shown :
    (r : ProductRule) (products : List Json)
    → Shown r products
    → of_products (needs_offers r) products ≡ none
unfolding Shown of_products has_offers
of_products-Shown r products (some_product, some_offer) = rw (some_product, some_offer) refl

-- A finding is never on a page that its rule does not measure: if a rule on offers, prices or
-- availability has a finding on a page that is a dictionary, and the site is not gated out for it, then
-- its `measure` lets the finding count.
pub measure_of-none :
    (show : Json → String) (r : ProductRule) (gs : Fields) (dom : Json) (ctx : MeasureCtx)
    {f : Finding} {fs : List Finding}
    → gated (code_of r) ctx ≡ none
    → evaluate_of show r (object gs) dom ≡ ok (f ∷ fs)
    → measure_of r (object gs) ctx ≡ none
unfolding measure_of products_measured
measure_of-none show r gs dom ctx g h = rw g (elim (Bool-cases (has_field "schema_org" gs)) [
  | inl e ↦
      let s = find_field "schema_org" gs in
      let same : schema_of gs ≡ s = unfold schema_of in rw e refl in
      let here : find_products (schema_of gs) ≡ find_products (or_value (array end) s) =
        ap find_products same ∙ sym (or_value_products s) in
      rw e (
        of_products-Shown r (find_products (or_value (array end) s))
          (subst (Shown r) here (shown show r gs dom h)))
  | inr e ↦
      let same : schema_of gs ≡ array end = unfold schema_of in rw e refl in
      let no_products : Shown r (find_products (array end)) =
        subst (λ v. Shown r (find_products v)) same (shown show r gs dom h) in
      unfold Shown find_products in absurd cc
])
