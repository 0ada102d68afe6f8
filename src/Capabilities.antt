-- ===== src/Capabilities.antt =====
-- capabilities.py: what a site is known to offer, and the rules that wait for it.
pub mod Derived
pub mod Raises
pub mod Gating
mod Tests
use scovant_core.Prelude.{
  ℕ, suc, String, Bool, true, false, not, ◌&&◌, ◌||◌, Option, none, some, List, [], ◌∷◌, ◌++◌, ltb,
  if◌then◌else◌, is_empty, keep, str_eq, drop_prefix, is_none, concat, contains, lookup, decimal,
  Result, ok, ◌>>=◌,
}
use scovant_core.Prelude.Json
use scovant_core.Prelude.Json.{
  Json, Items, Fields, null, text, array, object, end, item, no_more, field, truthy, is_object,
  is_true, is_text, has_field,
}
use scovant_core.Rules.Python.{PyError, get_key, or_value}
use scovant_core.R2.Outcome.{OutcomeState}

-- `FLAGS`
pub data Flag : Type 0 where
  product_catalog physical_goods transactional_checkout : Flag

abbrev pub flag_name : Flag → String
flag_name Flag.product_catalog = "product_catalog"
flag_name Flag.physical_goods = "physical_goods"
flag_name Flag.transactional_checkout = "transactional_checkout"

-- `CODE_FLAG`
abbrev pub code_flags : List (String × Flag)
code_flags =
    ("MISSING_PRODUCT_SCHEMA", Flag.product_catalog)
    ∷ ("MISSING_OFFER_DATA", Flag.product_catalog)
    ∷ ("PRICE_MISSING_INVALID", Flag.product_catalog)
    ∷ ("MISSING_AVAILABILITY", Flag.product_catalog)
    ∷ ("VARIANT_INFO_MISSING", Flag.product_catalog)
    ∷ ("PRICE_MISMATCH", Flag.product_catalog)
    ∷ ("SHIPPING_INFO_UNAVAILABLE", Flag.physical_goods)
    ∷ ("MISSING_RETURNS_POLICY", Flag.physical_goods)
    ∷ ("UCP_CHECKOUT_MISSING", Flag.transactional_checkout)
    ∷ ("AGENT_PAYMENTS_ABSENT", Flag.transactional_checkout)
    ∷ []

-- one row of `TYPE_DEFAULTS`
pub record Defaults : Type 0 where
  pub catalog : Option Bool
  pub goods : Option Bool
  pub checkout : Option Bool

abbrev non_tx : Defaults
non_tx = record { catalog = some false; goods = some false; checkout = some false }

abbrev on_checkout : Option Bool → Defaults
on_checkout c = record { catalog = some false; goods = some false; checkout = c }

-- `TYPE_DEFAULTS`
abbrev pub type_defaults : List (String × Defaults)
type_defaults =
    ("commerce", record { catalog = some true; goods = some true; checkout = some true })
    ∷ ("booking", on_checkout (some true))
    ∷ ("restaurant", on_checkout (some true))
    ∷ ("saas", on_checkout none)
    ∷ ("blog", non_tx)
    ∷ ("news", non_tx)
    ∷ ("docs", non_tx)
    ∷ ("documentation", non_tx)
    ∷ ("media", non_tx)
    ∷ ("portfolio", non_tx)
    ∷ ("education", non_tx)
    ∷ ("real_estate", non_tx)
    ∷ []

abbrev pub default_for : Flag → Defaults → Option Bool
default_for Flag.product_catalog d = d.catalog
default_for Flag.physical_goods d = d.goods
default_for Flag.transactional_checkout d = d.checkout

pub data Source : Type 0 where
  evidence type_default unknown : Source

pub record Capability : Type 0 where
  pub value : Option Bool
  pub source : Source
  pub proof : List String

pub record Capabilities : Type 0 where
  pub product_catalog : Capability
  pub physical_goods : Capability
  pub transactional_checkout : Capability

-- `getattr(caps, flag)`
abbrev pub flag_of : Capabilities → Flag → Capability
flag_of caps Flag.product_catalog = caps.product_catalog
flag_of caps Flag.physical_goods = caps.physical_goods
flag_of caps Flag.transactional_checkout = caps.transactional_checkout

-- `_offer_or_price`
unfoldable pub offer_or_price : Json → Bool
offer_or_price pd = is_object pd && (truthy (Json.get "price" pd) || truthy (Json.get "offers" pd))

-- `walk` of `_schema_has_shipping`
unfoldable mutual
  pub schema_has_shipping : Json → Bool
  schema_has_shipping (array xs) = any_item xs
  schema_has_shipping (object fs) =
      is_text "OfferShippingDetails" (Json.find_field "@type" fs)
      || has_field "shippingDetails" fs
      || has_field "hasMerchantReturnPolicy" fs
      || any_field fs
  schema_has_shipping _ = false

  any_item : Items → Bool
  any_item end = false
  any_item (item x xs) = schema_has_shipping x || any_item xs

  any_field : Fields → Bool
  any_field no_more = false
  any_field (field k v fs) = schema_has_shipping v || any_field fs

-- the test of the `continue`
abbrev pub is_read : Json → Bool
is_read page = is_object page && not (is_true (Json.get "content_blocked" page))

-- `CTA_NOT_CATALOG_TYPES`
abbrev pub cta_not_catalog : List String
cta_not_catalog = "saas" ∷ []

-- `not e.startswith("add_to_cart:")`
abbrev pub catalog_evidence : String → Bool
catalog_evidence e = is_none (drop_prefix "add_to_cart:" e)

-- `(v or {}).get(k) is True`
abbrev pub says : String → Json → Result PyError Bool
says k v = get_key k (or_value (object no_more) v) >>= λ found. ok (is_true found)

-- the evidence for the checkout, from the two blocks of the domain
unfoldable pub checkout_evidence : Json → Result PyError (List String)
checkout_evidence domain = do
  ucp ← says "has_checkout" (Json.get "ucp" domain)
  payments ← says "any_non_ucp" (Json.get "agent_payments" domain)
  ok (
      (if ucp then "ucp:has_checkout" ∷ [] else [])
      ++ (if payments then "agent_payments:any_non_ucp" ∷ [] else []))

-- `ev[flag][:_EVIDENCE_CAP]`
abbrev pub first_three : List String → List String
first_three (a ∷ b ∷ c ∷ rest) = a ∷ b ∷ c ∷ []
first_three es = es

-- the default of a site type for a flag
unfoldable pub type_default_of : String → Flag → Option Bool
type_default_of site_type flag = elim (lookup site_type type_defaults) [
  | none ↦ none
  | some d ↦ default_for flag d
]

-- the two branches without evidence
abbrev pub by_default : Option Bool → Capability
by_default none = record { value = none; source = Source.unknown; proof = [] }
by_default (some v) = record { value = some v; source = Source.type_default; proof = [] }

-- the three branches
abbrev pub capability_from : String → Flag → List String → Capability
capability_from site_type flag found =
    if is_empty found
    then by_default (type_default_of site_type flag)
    else record { value = some true; source = Source.evidence; proof = first_three found }

abbrev pub catalog_for : String → List String → List String
catalog_for site_type found =
    if contains cta_not_catalog site_type then keep catalog_evidence found else found

-- `str` of a value that is no text is a parameter
module _ (show : Json → String) where
  abbrev pub text_of : Json → String
  text_of (text s) = s
  text_of v = show v

  -- `str(page.get("url") or f"page[{i}]")`
  abbrev pub page_ref : ℕ → Json → String
  page_ref i url = if truthy url then text_of url else concat "page[" (concat (decimal i) "]")

  -- what `_page_evidence` adds for one page, by flag; another flag gets nothing
  unfoldable pub page_evidence : Flag → ℕ → Json → Result PyError (List String)
  unfolding offer_or_price schema_has_shipping
  page_evidence Flag.product_catalog i page =
      let ref = page_ref i (Json.get "url" page) in
      let by_cta = (do
        cta ← says "add_to_cart_found" (Json.get "semantic_signals" page)
        ok (if cta then concat "add_to_cart:" ref ∷ [] else [])) in
      if offer_or_price (Json.get "product_data" page)
      then ok (concat "product_offer:" ref ∷ [])
      else by_cta
  page_evidence Flag.physical_goods i page = ok (
      if schema_has_shipping (Json.get "schema_org" page)
      then concat "shipping_schema:" (page_ref i (Json.get "url" page)) ∷ []
      else [])
  page_evidence Flag.transactional_checkout i page = ok []

  -- `_page_evidence`, from the page of number `i` on. What it raises is always an `AttributeError`.
  unfoldable pub pages_evidence : Flag → ℕ → List Json → Result PyError (List String)
  unfolding page_evidence
  pages_evidence flag i [] = ok []
  pages_evidence flag i (page ∷ pages) =
      let rest = pages_evidence flag (suc i) pages in
      let all = (do here ← page_evidence flag i page; later ← rest; ok (here ++ later)) in
      if is_read page then all else rest

  -- `derive_capabilities`; no site type is the empty text
  unfoldable pub derive_capabilities : String → List Json → Json → Result PyError Capabilities
  unfolding pages_evidence checkout_evidence
  derive_capabilities site_type pages domain = do
    catalog ← pages_evidence Flag.product_catalog 0 pages
    goods ← pages_evidence Flag.physical_goods 0 pages
    checkout ← checkout_evidence domain
    ok (record {
      product_catalog =
          capability_from site_type Flag.product_catalog (catalog_for site_type catalog);
      physical_goods = capability_from site_type Flag.physical_goods goods;
      transactional_checkout = capability_from site_type Flag.transactional_checkout checkout;
    })

-- the three values of a flag in `gate`
abbrev pub gate_value : Flag → Option Bool → Option (OutcomeState × String)
gate_value flag (some true) = none
gate_value flag (some false) = some (OutcomeState.na, concat "capability_absent:" (flag_name flag))
gate_value flag none = some (OutcomeState.na, concat "capability_not_established:" (flag_name flag))

-- what follows the look-up of the code
abbrev pub gated : Capabilities → Option Flag → Option (OutcomeState × String)
gated caps none = none
gated caps (some flag) = gate_value flag (flag_of caps flag).value

-- `gate`
unfoldable pub gate : String → Option Capabilities → Option (OutcomeState × String)
gate code none = none
gate code (some caps) = gated caps (lookup code code_flags)
