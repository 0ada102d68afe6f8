-- ===== src/Rules/Products.antt =====
-- rules/products.py: products and offers in the structured data of a page, and the gate of the rules on
-- them. Only dictionaries are products and offers.
use Prim.Native.Nat.{◌^◌}
use scovant_core.Prelude.{
  ℕ, ◌-◌, String, Bool, true, false, not, ◌&&◌, ◌||◌, Option, none, some, List, [], ◌∷◌, ◌++◌, any,
  keep, if◌then◌else◌, str_eq, contains, lookup, occurs, lower, leb, ◌==◌, Result, ok, err,
}
use scovant_core.Prelude.Json
use scovant_core.Prelude.Json.{
  Json, Number, int, float, null, bool, number, text, array, object, is_object, is_text,
}
use scovant_core.Capabilities.{Capabilities, Flag, code_flags, gate}
use scovant_core.R2.Outcome.{OutcomeState}
use scovant_core.Rules.{MeasureCtx}
use scovant_core.Rules.Python.{PyError, overflow_error, items_or_none}
use scovant_core.Rules.FloatText.{FloatText, float_text, is_positive}

abbrev pub non_transacting_site_types : List String
non_transacting_site_types =
    "blog" ∷ "news" ∷ "docs" ∷ "documentation" ∷ "media" ∷ "portfolio" ∷ "saas" ∷ "education"
    ∷ "real_estate" ∷ []

abbrev pub commerce_gated_codes : List String
commerce_gated_codes =
    "MISSING_PRODUCT_SCHEMA" ∷ "MISSING_OFFER_DATA" ∷ "PRICE_MISSING_INVALID"
    ∷ "MISSING_AVAILABILITY" ∷ "VARIANT_INFO_MISSING" ∷ "PRICE_MISMATCH" ∷ "MISSING_RETURNS_POLICY"
    ∷ "SHIPPING_INFO_UNAVAILABLE" ∷ []

abbrev pub unknown_site_type : String
unknown_site_type = "unknown"

abbrev pub profile_policy_id : String
profile_policy_id = "applicability-2026.11.2"

-- `UCP_CHECKOUT_SITE_TYPES` of rules/ucp.py
abbrev pub ucp_checkout_site_types : List String
ucp_checkout_site_types = "commerce" ∷ "booking" ∷ "restaurant" ∷ []

abbrev pub variant_keywords : List String
variant_keywords = "size" ∷ "color" ∷ "colour" ∷ "variant" ∷ "style" ∷ "material" ∷ []

-- `site_category in xs`
abbrev pub in_types : List String → Option String → Bool
in_types types none = false
in_types types (some t) = contains types t

abbrev pub is_unknown : Option String → Bool
is_unknown none = false
is_unknown (some t) = str_eq t unknown_site_type

unfoldable pub commerce_gated : String → Option String → Bool
commerce_gated code site =
    contains commerce_gated_codes code
    && (in_types non_transacting_site_types site || is_unknown site)

abbrev pub is_checkout : Option Flag → Bool
is_checkout (some Flag.transactional_checkout) = true
is_checkout _ = false

abbrev pub verdict_of : Option (OutcomeState × String) → Option OutcomeState
verdict_of none = none
verdict_of (some hit) = some hit.0

abbrev na_if : Bool → Option OutcomeState
na_if true = some OutcomeState.na
na_if false = none

abbrev by_site_type : String → Option String → Option OutcomeState
unfolding commerce_gated
by_site_type code site =
    if is_checkout (lookup code code_flags)
    then na_if (not (in_types ucp_checkout_site_types site))
    else na_if (commerce_gated code site)

abbrev by_capabilities : String → Option String → Option Capabilities → Option OutcomeState
unfolding by_site_type gate
by_capabilities code site (some caps) = verdict_of (gate code (some caps))
by_capabilities code site none = by_site_type code site

-- `_gated`
unfoldable pub gated : String → MeasureCtx → Option OutcomeState
unfolding by_capabilities
gated code ctx = by_capabilities code ctx.site_category ctx.capabilities

-- `v.get("@type") == "Product"` of a dictionary
abbrev pub is_product : Json → Bool
is_product v = is_object v && is_text "Product" (Json.get "@type" v)

abbrev pub products_in : Json → List Json
products_in entity =
    if is_object entity
    then (if is_text "Product" (Json.get "@type" entity) then entity ∷ [] else [])
      ++ keep is_product (items_or_none (Json.get "@graph" entity))
    else []

abbrev pub products_of : List Json → List Json
products_of [] = []
products_of (entity ∷ rest) = products_in entity ++ products_of rest

-- `find_products`
unfoldable pub find_products : Json → List Json
find_products schema_org = products_of (items_or_none schema_org)

-- `get_offers`
unfoldable pub get_offers : Json → List Json
get_offers product =
    let raw = Json.get "offers" product in
    if is_object raw then raw ∷ [] else keep is_object (items_or_none raw)

-- an integer that `float` cannot take: it rounds to 2 ^ 1024 or more
abbrev pub too_large : ℕ → Bool
too_large n = leb (2 ^ 1024 - 2 ^ 970) n

abbrev pub positive_text : Option FloatText → Bool
unfolding is_positive
positive_text none = false
positive_text (some x) = is_positive x

-- `is_valid_price`. `float` raises a `ValueError` or a `TypeError`, which the code catches, or an
-- `OverflowError`, which it does not.
unfoldable pub is_valid_price : Json → Result PyError Bool
unfolding float_text positive_text
is_valid_price (bool b) = ok b
is_valid_price (number (int negative n)) =
    if too_large n then err overflow_error else ok (not negative && not (n == 0))
is_valid_price (number (float negative digits decimals)) = ok (not negative && not (digits == 0))
is_valid_price (text s) = ok (positive_text (float_text s))
is_valid_price _ = ok false

-- `mentions_variant_keywords`
unfoldable pub mentions_variant_keywords : String → Bool
unfolding lower occurs
mentions_variant_keywords s = any (λ kw. occurs kw (lower s)) variant_keywords
