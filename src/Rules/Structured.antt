-- ===== src/Rules/Structured.antt =====
-- rules/structured.py: the five rules on the products of a page. The texts of a finding are left out.
-- Two functions are parameters: whether a text has an add-to-cart wording, which lowers letters of every
-- script, and `str` of a value.
pub mod Raises
pub mod Measured
mod Tests
use scovant_core.Prelude.{
  ℕ, String, Bool, true, false, not, ◌&&◌, ◌||◌, Option, none, some, List, [], ◌∷◌, any, keep,
  length, ltb, is_empty, if◌then◌else◌, Result, ok, err, ◌>>=◌,
}
use scovant_core.Prelude.Json
use scovant_core.Prelude.Json.{Json, null, text, array, object, end, no_more, field, truthy}
use scovant_core.R2.Outcome.{OutcomeState}
use scovant_core.Rules.{Finding, MeasureCtx}
use scovant_core.Rules.Python.{PyError, attribute_error, get_key, get_default, has_key, or_value}
use scovant_core.Rules.Products.{
  gated, find_products, get_offers, is_valid_price, mentions_variant_keywords,
}

abbrev pub finding : Json → Finding
finding metadata = record { severity = none; code = none; metadata = metadata }

abbrev pub found_if : Bool → List Finding
found_if fires = if fires then finding (object no_more) ∷ [] else []

-- `page.get("schema_org", [])` and its products
unfoldable pub page_products : Json → Result PyError (List Json)
unfolding find_products
page_products page = do
  schema_org ← get_default "schema_org" (array end) page
  ok (find_products schema_org)

-- a text for `.lower()`
abbrev pub as_text : Json → Result PyError String
as_text (text s) = ok s
as_text _ = err attribute_error

unfoldable pub has_no_offers : Json → Bool
unfolding get_offers
has_no_offers product = is_empty (get_offers product)

-- `MissingProductSchema.evaluate`
unfoldable pub evaluate_schema : Json → Json → Result PyError (List Finding)
unfolding page_products
evaluate_schema page domain = do products ← page_products page; ok (found_if (is_empty products))

-- `MissingOfferData.evaluate`
unfoldable pub evaluate_offers : Json → Json → Result PyError (List Finding)
unfolding page_products has_no_offers
evaluate_offers page domain = do
  products ← page_products page
  ok (found_if (any has_no_offers products))

-- the loop over the offers of a product: the price of the first one whose price is not valid
unfoldable pub bad_offer : List Json → Result PyError (Option Json)
unfolding is_valid_price
bad_offer [] = ok none
bad_offer (offer ∷ offers) =
    let rest = bad_offer offers in
    let price = Json.get "price" offer in
    is_valid_price price >>= λ valid. if valid then rest else ok (some price)

abbrev pub or_next : Option Json → Result PyError (Option Json) → Result PyError (Option Json)
or_next (some price) next = ok (some price)
or_next none next = next

-- the loop over the products
unfoldable pub bad_price : List Json → Result PyError (Option Json)
unfolding bad_offer get_offers
bad_price [] = ok none
bad_price (product ∷ products) =
    let rest = bad_price products in bad_offer (get_offers product) >>= λ found. or_next found rest

abbrev pub lacks_availability : Json → Bool
lacks_availability offer = not (truthy (Json.get "availability" offer))

-- `AvailabilityMissing.evaluate`
unfoldable pub evaluate_availability : Json → Json → Result PyError (List Finding)
unfolding page_products get_offers
evaluate_availability page domain = do
  products ← page_products page
  ok (found_if (any (λ product. any lacks_availability (get_offers product)) products))

-- structured variant data, which lets the loop go on
abbrev pub has_variants : Json → Bool
has_variants product =
    truthy (Json.get "hasVariant" product) || truthy (Json.get "additionalProperty" product)

abbrev pub may_vary : String → Json → Bool
unfolding get_offers mentions_variant_keywords
may_vary visible_text product =
    ltb 1 (length (get_offers product)) || mentions_variant_keywords visible_text

-- the text is lowered at a product without variant data
abbrev pub lowered : Json → List Json → Result PyError String
lowered v [] = ok ""
lowered v (product ∷ products) = as_text v

-- `VariantInfoMissing.evaluate`
unfoldable pub evaluate_variants : Json → Json → Result PyError (List Finding)
unfolding page_products may_vary
evaluate_variants page domain = do
  products ← page_products page
  given ← get_default "visible_text" (text "") page
  let plain = keep (λ p. not (has_variants p)) products
  visible_text ← lowered (or_value (text "") given) plain
  ok (found_if (any (may_vary visible_text) plain))

module _ (show : Json → String) where
  abbrev pub price_finding : Option Json → List Finding
  price_finding none = []
  price_finding (some price) = finding (object (field "price" (text (show price)) no_more)) ∷ []

  -- `PriceMissingOrInvalid.evaluate`
  unfoldable pub evaluate_price : Json → Json → Result PyError (List Finding)
  unfolding page_products bad_price
  evaluate_price page domain = do
    products ← page_products page
    found ← bad_price products
    ok (price_finding found)

abbrev pub or_verdict : Option OutcomeState → Option OutcomeState → Option OutcomeState
or_verdict (some g) rest = some g
or_verdict none rest = rest

-- the verdict on the products of a page that has structured data
abbrev pub of_products : Bool → List Json → Option OutcomeState
unfolding has_no_offers
of_products need_offers products =
    if is_empty products
    then some OutcomeState.na
    else if need_offers && not (any (λ p. not (has_no_offers p)) products)
    then some OutcomeState.na
    else none

-- `_products_measured`
unfoldable pub products_measured : String → Json → MeasureCtx → Bool → Option OutcomeState
unfolding of_products gated find_products
products_measured code page ctx need_offers = or_verdict (gated code ctx) (
    if not (has_key "schema_org" page)
    then some OutcomeState.not_measured
    else of_products need_offers
        (find_products (or_value (array end) (Json.get "schema_org" page))))

-- `VariantInfoMissing.measure`
unfoldable pub variants_measured : String → Json → MeasureCtx → Option OutcomeState
unfolding gated find_products
variants_measured code page ctx = or_verdict (gated code ctx) (
    if not (has_key "schema_org" page) || not (has_key "visible_text" page)
    then some OutcomeState.not_measured
    else if is_empty (find_products (or_value (array end) (Json.get "schema_org" page)))
    then some OutcomeState.na
    else none)

module _ (mentions_add_to_cart : String → Bool) where
  -- the visible text of a page is a text or `None`, as `conform_page` leaves it
  abbrev pub mentions : Json → Bool
  mentions (text s) = mentions_add_to_cart s
  mentions _ = mentions_add_to_cart ""

  -- `MissingProductSchema.measure`
  unfoldable pub schema_measured : String → Json → MeasureCtx → Option OutcomeState
  unfolding gated find_products
  schema_measured code page ctx = or_verdict (gated code ctx) (
      if not (has_key "schema_org" page)
      then some OutcomeState.not_measured
      else if not (is_empty (find_products (or_value (array end) (Json.get "schema_org" page))))
      then none
      else if not (has_key "semantic_signals" page)
      then some OutcomeState.not_measured
      else if truthy (Json.get "add_to_cart_found" (Json.get "semantic_signals" page))
          || mentions (Json.get "visible_text" page)
      then none
      else some OutcomeState.na)
