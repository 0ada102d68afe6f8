-- ===== src/Rules/Structured/Tests.antt =====
-- The rules on a page with one product.
use Prim.Native.Nat.{◌^◌}
use scovant_core.Prelude.{String, ◌≡◌, refl, false, not, none, some, [], ◌∷◌, ok, err, is_ok}
use scovant_core.Prelude.Json
use scovant_core.Prelude.Json.{
  Json, null, number, int, text, array, object, end, item, Fields, no_more, field,
}
use scovant_core.Rules.{MeasureCtx}
use scovant_core.Rules.Python.{overflow_error}
use scovant_core.Rules.Conforming.{conformed_page}
use scovant_core.Rules.Products.{gated, find_products}
use scovant_core.Rules.Structured.{finding, price_finding, evaluate_variants, evaluate_price}
use scovant_core.Rules.Structured.Raises.{prices_of, meets_too_large, evaluate_price-is_ok}
use scovant_core.Rules.Structured.Measured.{
  ProductRule, code_of, evaluate_of, measure_of, measure_of-none,
}

abbrev shown : Json → String
shown (text s) = s
shown _ = "a value"

abbrev with_price : Json → Fields
with_price p =
    field "schema_org"
      (array (
        item
          (object (
            field "@type" (text "Product")
              (field "offers" (object (field "price" p no_more)) no_more)))
          end))
      no_more

abbrev priced : Json → Json
priced p = object (with_price p)

evaluate_price-dollar_test :
    evaluate_price shown (priced (text "$29.99")) null
    ≡ ok (price_finding shown (some (text "$29.99")))
unfolding evaluate_price
evaluate_price-dollar_test = refl

evaluate_price-valid_test : evaluate_price shown (priced (text "29.99")) null ≡ ok []
unfolding evaluate_price
evaluate_price-valid_test = refl

evaluate_price-large_test :
    evaluate_price shown (priced (number (int false (2 ^ 1024)))) null ≡ err overflow_error
unfolding evaluate_price
evaluate_price-large_test = refl

evaluate_variants_test : evaluate_variants (priced null) null ≡ ok []
unfolding evaluate_variants
evaluate_variants_test = refl

abbrev large : Json
large = priced (number (int false (2 ^ 1024)))

evaluate_price-is_ok_example :
    is_ok (evaluate_price shown (conformed_page large) null)
    ≡ not
        (meets_too_large (prices_of (find_products (Json.get "schema_org" (conformed_page large)))))
evaluate_price-is_ok_example = evaluate_price-is_ok shown large null

abbrev shop : MeasureCtx
shop = record { site_category = some "commerce"; defaulted = none; capabilities = none }

shop_measured : gated (code_of ProductRule.price) shop ≡ none
unfolding gated
shop_measured = refl

dollar_found :
    evaluate_of shown ProductRule.price (object (with_price (text "$29.99"))) null
    ≡ ok (finding (object (field "price" (text "$29.99") no_more)) ∷ [])
unfolding evaluate_of
dollar_found = refl

measure_of-none_example :
    measure_of ProductRule.price (object (with_price (text "$29.99"))) shop ≡ none
measure_of-none_example =
    measure_of-none shown ProductRule.price (with_price (text "$29.99")) null shop shop_measured
      dollar_found
