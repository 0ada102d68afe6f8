-- ===== src/Profiles.antt =====
-- profiles.py: the profile that the evidence matches best. Confidences are in hundredths. What the
-- evidence is not shaped for is raised, as a value.
use scovant_core.Prelude.{
  ℕ, String, Bool, not, ◌&&◌, ◌||◌, List, [], ◌∷◌, ◌++◌, any, map, Result, ok, err, ◌>>=◌,
  if◌then◌else◌, contains,
}
use scovant_core.Prelude.Json.{
  Json, Items, Fields, text, array, object, end, item, no_more, field, truthy, is_null,
}
use scovant_core.Rules.Python.{
  PyError, type_error, get_key, get_default, get_item, or_value, is_in, dicts_in, list_items,
  any_in, or_else,
}
use scovant_core.Context.{ScanContext}

abbrev types_commerce : List String
types_commerce = "Product" ∷ "Offer" ∷ "AggregateOffer" ∷ "ProductGroup" ∷ []

-- the texts of an array; another value has none
abbrev pub item_texts : Items → List String
item_texts end = []
item_texts (item (text s) xs) = s ∷ item_texts xs
item_texts (item _ xs) = item_texts xs

-- the texts that the value of `@type` names
abbrev pub type_texts : Json → List String
type_texts (text s) = s ∷ []
type_texts (array xs) = item_texts xs
type_texts _ = []

abbrev names_in : Fields → List String
names_in no_more = []
names_in (field k v fs) = k ∷ names_in fs

-- `d if p(v) else []` for the value of `@graph`
abbrev graph_nodes : Json → List Json
graph_nodes (array xs) = list_items xs
graph_nodes _ = []

-- the loop over `@graph`
unfoldable graph_types : List Json → Result PyError (List String)
graph_types [] = ok []
graph_types (g ∷ gs) = do t ← get_key "@type" g; rest ← graph_types gs; ok (type_texts t ++ rest)

-- `_types`
unfoldable pub types_in : List Json → Result PyError (List String)
unfolding graph_types
types_in [] = ok []
types_in (node ∷ nodes) = do
  t ← get_key "@type" node
  graph ← get_key "@graph" node
  graphed ← graph_types (graph_nodes graph)
  rest ← types_in nodes
  ok (type_texts t ++ graphed ++ rest)

-- `set().union(*(_types(p["schema_org"]) for p in parsed))`
unfoldable types_of : List Json → Result PyError (List String)
unfolding types_in
types_of [] = ok []
types_of (p ∷ ps) = do
  schema_org ← get_item "schema_org" p
  nodes ← dicts_in schema_org
  types ← types_in nodes
  rest ← types_of ps
  ok (types ++ rest)

-- `parsed`
unfoldable parsed_of : List Json → Result PyError (List Json)
parsed_of [] = ok []
parsed_of (p ∷ ps) = do
  parsed ← get_key "parsed" p
  rest ← parsed_of ps
  ok (if truthy parsed then parsed ∷ rest else rest)

abbrev one_of : List String → String → Bool
one_of wanted s = contains wanted s

-- `p["product_data"]`
abbrev has_data : Json → Result PyError Bool
has_data p = get_item "product_data" p >>= λ v. ok (truthy v)

-- `p["semantic_signals"].get(name)`
abbrev signal : String → Json → Result PyError Bool
signal name p =
    get_item "semantic_signals" p >>= λ signals. get_key name signals >>= λ v. ok (truthy v)

-- `for u in v`, for the links; a text has its letters, which hold none of the parts that are looked for
abbrev links_in : Json → Result PyError (List Json)
links_in (array xs) = ok (list_items xs)
links_in (object fs) = ok (map text (names_in fs))
links_in (text s) = ok []
links_in _ = err type_error

-- `links`
unfoldable links_of : List Json → Result PyError (List Json)
links_of [] = ok []
links_of (p ∷ ps) = do
  links ← get_item "internal_links" p
  urls ← get_item "urls" links
  here ← links_in urls
  rest ← links_of ps
  ok (here ++ rest)

-- `any(part in u for part in parts)`
unfoldable has_part : List String → Json → Result PyError Bool
has_part parts u = any_in (λ part. is_in part u) parts

-- the six observations that `resolve_profile` decides by
pub record Signals : Type 0 where
  pub has_product : Bool
  pub cart : Bool
  pub signup : Bool
  pub pricing : Bool
  pub openapi : Bool
  pub docsish : Bool

-- what is read of the evidence "pages"
pub record PageSignals : Type 0 where
  pub has_product : Bool
  pub cart : Bool
  pub signup : Bool
  pub pricing : Bool
  pub links : List Json

-- the first half of `resolve_profile`, up to the second piece of evidence; `null` stands for `None`
unfoldable pub page_signals : Json → Result PyError PageSignals
unfolding parsed_of types_of any_in links_of has_part
page_signals evidence = do
  given ← get_default "pages" (array end) (or_value (object no_more) evidence)
  pages ← dicts_in given
  parsed ← parsed_of pages
  types ← types_of parsed
  has_product ← or_else (any (one_of types_commerce) types) (any_in has_data parsed)
  cart ← any_in (signal "add_to_cart_found") parsed
  signup ← any_in (signal "signup_cta_found") parsed
  links ← links_of parsed
  pricing ← any_in (has_part ("/pricing" ∷ "/plans" ∷ [])) links
  ok (record {
    has_product = has_product;
    cart = cart;
    signup = signup;
    pricing = pricing;
    links = links;
  })

-- the second half, with the evidence "openapi"
unfoldable pub signals_of : PageSignals → Json → Result PyError Signals
unfolding any_in has_part
signals_of p openapi = do
  found_url ← get_key "found_url" (or_value (object no_more) openapi)
  docsish ← any_in (has_part ("/docs" ∷ "/api" ∷ "/developers" ∷ [])) p.links
  ok (record {
    has_product = p.has_product;
    cart = p.cart;
    signup = p.signup;
    pricing = p.pricing;
    openapi = not (is_null found_url);
    docsish = docsish;
  })

-- the returns of `resolve_profile`
unfoldable pub profile_of : Signals → String × ℕ
profile_of s =
    if s.has_product && s.cart
    then ("commerce", 95)
    else if s.has_product
    then ("commerce", 85)
    else if s.openapi
    then ("api", if s.docsish then 90 else 75)
    else if s.pricing && s.signup
    then ("saas", 80)
    else if s.pricing || s.signup
    then ("saas", 60)
    else if s.docsish
    then ("api", 55)
    else ("content", 50)

-- the two halves of `resolve_profile`
unfoldable pub resolve_profile : PageSignals → Json → Result PyError (String × ℕ)
unfolding signals_of profile_of
resolve_profile p openapi = signals_of p openapi >>= λ s. ok (profile_of s)

abbrev pub resolved : ScanContext → String × ℕ → ScanContext
resolved ctx r = record ctx { resolved_profile = r.0; profile_confidence = r.1 }
