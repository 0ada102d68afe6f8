-- ===== src/Capabilities/Tests.antt =====
-- The theorems on capabilities at two pages of a shop.
use scovant_core.Prelude.{String, ◌≡◌, refl, ◌↔◌, true, false, none, some, [], ◌∷◌, ◌++◌, ok, err}
use scovant_core.Prelude.Json.{
  Json, null, number, int, text, array, object, end, item, no_more, field,
}
use scovant_core.Rules.Python.{attribute_error}
use scovant_core.Capabilities.{Flag, Capabilities, offer_or_price, derive_capabilities, gate}
use scovant_core.Capabilities.Derived.{AreReadable, is_established}
use scovant_core.Capabilities.Raises.{pages_read}
use scovant_core.Capabilities.Gating.{gate-derive_capabilities, gate_grows}

abbrev product_page : Json
product_page = object (
    field "url" (text "https://shop.test/p")
      (field "product_data" (object (field "price" (number (int false 5)) no_more)) no_more))

abbrev shipping_page : Json
shipping_page =
    object (
      field "schema_org" (array (item (object (field "shippingDetails" null no_more)) end)) no_more)

abbrev show : Json → String
show v = "?"

shop_reads : AreReadable (product_page ∷ []) null
unfolding offer_or_price
shop_reads = record { pages_read = (refl, tt); domain_read = refl }

-- signals that are a text stop `_page_evidence`
derive_capabilities_raises_test :
    derive_capabilities show "blog" (object (field "semantic_signals" (text "x") no_more) ∷ []) null
    ≡ err attribute_error
unfolding derive_capabilities
derive_capabilities_raises_test = refl

gate-derive_capabilities_example :
    (caps : Capabilities) × (derive_capabilities show "saas" (product_page ∷ []) null ≡ ok caps)
    × ((gate "PRICE_MISMATCH" (some caps) ≡ none)
        ↔ (is_established "saas" (product_page ∷ []) null Flag.product_catalog ≡ true))
gate-derive_capabilities_example =
    gate-derive_capabilities show "PRICE_MISMATCH" Flag.product_catalog "saas" (product_page ∷ [])
      null refl shop_reads

let_through : gate "PRICE_MISMATCH" (some gate-derive_capabilities_example.0) ≡ none
unfolding is_established offer_or_price
let_through = gate-derive_capabilities_example.2.1 refl

gate_grows_example :
    (later : Capabilities) × (derive_capabilities show "saas"
        ((product_page ∷ []) ++ (shipping_page ∷ []))
        null
      ≡ ok later)
    × (gate "PRICE_MISMATCH" (some later) ≡ none)
unfolding offer_or_price
gate_grows_example =
    gate_grows show "PRICE_MISMATCH" Flag.product_catalog "saas" (product_page ∷ [])
      (shipping_page ∷ []) null refl shop_reads (refl, tt) gate-derive_capabilities_example.1
      let_through
