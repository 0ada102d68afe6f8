-- ===== src/Capabilities/Derived.antt =====
-- capabilities.py: on which evidence `derive_capabilities` returns, and what makes a flag true.
use Prim.Native.String.append.{cons}
use scovant_core.Prelude.{
  ℕ, suc, String, ◌≡◌, refl, sym, ◌∙◌, ap, ◌↔◌, inl, inr, Bool, true, false, not, ◌&&◌, ◌||◌,
  Option, none, some, List, [], ◌∷◌, ◌++◌, is_empty, is_none, any, keep, concat, drop_prefix,
  str_eq, if◌then◌else◌, Bool-cases, All, ok, ◌>>=◌, arith,
}
use scovant_core.Prelude.Text.Prefix.{drop_prefix-concat}
use scovant_core.Prelude.Json
use scovant_core.Prelude.Json.{
  Json, Fields, object, no_more, field, find_field, truthy, is_object, is_true,
}
use scovant_core.Rules.Python.{get_key, find_missing}
use scovant_core.Capabilities.{
  Flag, Capabilities, by_default, is_read, offer_or_price, schema_has_shipping, says, page_ref,
  page_evidence, pages_evidence, checkout_evidence, capability_from, catalog_for, type_default_of,
  derive_capabilities, flag_of, catalog_evidence,
}

-- a block whose `get` does not raise: a dictionary, or a value that `or {}` replaces
abbrev pub reads_block : Json → Bool
reads_block v = is_object v || not (truthy v)

-- a page that is no wall
abbrev pub is_open : Json → Bool
is_open p = is_object p && not (is_true (Json.get "content_blocked" p))

-- a page that is passed over, that shows an offer, or whose signals can be read
abbrev pub page_reads : Json → Bool
page_reads p =
    not (is_open p)
    || offer_or_price (Json.get "product_data" p)
    || reads_block (Json.get "semantic_signals" p)

abbrev pub domain_reads : Json → Bool
domain_reads d = reads_block (Json.get "ucp" d) && reads_block (Json.get "agent_payments" d)

-- the evidence of a scan, on which `derive_capabilities` does not raise
pub record AreReadable (pages : List Json) (domain : Json) : Type 0 where
  pub pages_read : All (λ p. page_reads p ≡ true) pages
  pub domain_read : domain_reads domain ≡ true

abbrev pub adds_to_cart : Json → Bool
adds_to_cart p = is_true (Json.get "add_to_cart_found" (Json.get "semantic_signals" p))

-- what a page shows of a flag
abbrev pub shows : String → Flag → Json → Bool
shows site_type Flag.product_catalog p =
    offer_or_price (Json.get "product_data" p) || not (str_eq "saas" site_type) && adds_to_cart p
shows site_type Flag.physical_goods p = schema_has_shipping (Json.get "schema_org" p)
shows site_type Flag.transactional_checkout p = false

abbrev pub domain_shows : Flag → Json → Bool
domain_shows Flag.transactional_checkout d =
    is_true (Json.get "has_checkout" (Json.get "ucp" d))
    || is_true (Json.get "any_non_ucp" (Json.get "agent_payments" d))
domain_shows _ d = false

abbrev pub sets : Option Bool → Bool
sets none = false
sets (some v) = v

-- what makes a flag true: a page that is no wall shows it, the domain does, or the site type sets it
unfoldable pub is_established : String → List Json → Json → Flag → Bool
unfolding type_default_of
is_established site_type pages domain flag =
    any (λ p. is_open p && shows site_type flag p) pages
    || domain_shows flag domain
    || sets (type_default_of site_type flag)

keep-append : (t : String → Bool) (xs ys : List String) → keep t (xs ++ ys) ≡ keep t xs ++ keep t ys
keep-append t [] ys = refl
keep-append t (x ∷ xs) ys = elim (Bool-cases (t x)) [
  | inl e ↦ rw e (ap (λ zs. x ∷ zs) (keep-append t xs ys))
  | inr e ↦ rw e (keep-append t xs ys)
]

find_missing-says : (k : String) (fs : Fields) → says k (object fs) ≡ ok (is_true (find_field k fs))
find_missing-says k no_more = refl
find_missing-says k (field j v fs) = ap (λ x. ok (is_true x)) (find_missing k (field j v fs))

falsy : (b : Bool) → (false || not b) ≡ true → b ≡ false
falsy true h = absurd cc
falsy false h = refl

pub says-reads :
    (k : String) (v : Json) → reads_block v ≡ true → says k v ≡ ok (is_true (Json.get k v))
says-reads k (object fs) h = find_missing-says k fs
says-reads k v h =
    ap (λ b. get_key k (if b then v else object no_more) >>= λ found. ok (is_true found))
      (falsy (truthy v) h)

is_empty-append : (xs ys : List String) → is_empty (xs ++ ys) ≡ (is_empty xs && is_empty ys)
is_empty-append [] ys = refl
is_empty-append (x ∷ xs) ys = refl

not_or : (a b : Bool) → (not a && not b) ≡ not (a || b)
not_or a b = ground arith

keep_all : (xs : List String) → keep (λ x. true) xs ≡ xs
keep_all [] = refl
keep_all (x ∷ xs) = ap (λ ys. x ∷ ys) (keep_all xs)

-- the evidence of the catalog that is kept, where the button counts and where it does not
abbrev kept_of : Bool → String → Bool
kept_of true = catalog_evidence
kept_of false = λ e. true

abbrev shows_catalog : Bool → Json → Bool
shows_catalog no_cta p = offer_or_price (Json.get "product_data" p) || not no_cta && adds_to_cart p

cta_left : (ref : String) → catalog_evidence (concat "add_to_cart:" ref) ≡ false
cta_left ref = ap is_none (drop_prefix-concat "add_to_cart:" ref)

offer_kept : (ref : String) → catalog_evidence (concat "product_offer:" ref) ≡ true
unfolding drop_prefix
offer_kept ref = ap catalog_evidence (λ i. cons "p" "roduct_offer:" ref i)

kept_offer :
    (b : Bool) (ref : String)
    → is_empty (keep (kept_of b) (concat "product_offer:" ref ∷ [])) ≡ false
kept_offer false ref = refl
kept_offer true ref = rw (offer_kept ref) refl

kept_cta :
    (b adds : Bool) (ref : String)
    → is_empty (keep (kept_of b) (if adds then concat "add_to_cart:" ref ∷ [] else []))
      ≡ not (not b && adds)
kept_cta false true ref = refl
kept_cta true true ref = rw (cta_left ref) refl
kept_cta false false ref = refl
kept_cta true false ref = refl

or_found : (a b c : Bool) → a ≡ true → (not a || b || c) ≡ true → b ≡ false → c ≡ true
or_found true false c e h n = h
or_found true true c e h n = absurd cc
or_found false b c e h n = absurd cc

module _ (show : Json → String) where
  -- a page without error, and how much of its evidence a test keeps
  abbrev Proves : Flag → (String → Bool) → (Json → Bool) → Json → Type 0
  Proves flag kept has p =
      (i : ℕ)
      → (here : List String) × (page_evidence show flag i p ≡ ok here)
        × (is_empty (keep kept here) ≡ not (has p))

  pages_evidence-keep :
      (flag : Flag) (kept : String → Bool) (has : Json → Bool)
      → ((p : Json) → is_read p ≡ true → page_reads p ≡ true → Proves flag kept has p)
      → (i : ℕ) (pages : List Json) → All (λ p. page_reads p ≡ true) pages
      → (es : List String) × (pages_evidence show flag i pages ≡ ok es)
        × (is_empty (keep kept es) ≡ not (any (λ p. is_read p && has p) pages))
  unfolding pages_evidence
  pages_evidence-keep flag kept has each i [] h = ([], refl, refl)
  pages_evidence-keep flag kept has each i (p ∷ ps) h =
      let (es, q, n) = pages_evidence-keep flag kept has each (suc i) ps h.1 in
      elim (Bool-cases (is_read p)) [
        | inr e ↦ (es, rw e q, rw e n)
        | inl e ↦
            let (here, r, m) = each p e h.0 i in
            (
              here ++ es,
              rw (e, r, q) refl,
              rw
                  (
                    e,
                    keep-append kept here es,
                    is_empty-append (keep kept here) (keep kept es),
                    m,
                    n,
                  )
                  (not_or (has p) (any (λ x. is_read x && has x) ps)),
            )
      ]

  catalog-Proves :
      (b : Bool) (p : Json)
      → is_read p ≡ true
      → page_reads p ≡ true
      → Proves Flag.product_catalog (kept_of b) (shows_catalog b) p
  unfolding page_evidence
  catalog-Proves b p r h i =
      let ref = page_ref show i (Json.get "url" p) in
      elim (Bool-cases (offer_or_price (Json.get "product_data" p))) [
        | inl e ↦ (concat "product_offer:" ref ∷ [], rw e refl, rw e (kept_offer b ref))
        | inr e ↦
            let signals =
              or_found (is_read p) (offer_or_price (Json.get "product_data" p))
                (reads_block (Json.get "semantic_signals" p)) r h e in
            let said = says-reads "add_to_cart_found" (Json.get "semantic_signals" p) signals in
            (
              if adds_to_cart p then concat "add_to_cart:" ref ∷ [] else [],
              rw (e, said) refl,
              rw e (kept_cta b (adds_to_cart p) ref),
            )
      ]

  goods-Proves :
      (p : Json)
      → is_read p ≡ true
      → page_reads p ≡ true
      → Proves Flag.physical_goods
          (λ e. true)
          (λ q. schema_has_shipping (Json.get "schema_org" q))
          p
  unfolding page_evidence
  goods-Proves p r h i = elim (Bool-cases (schema_has_shipping (Json.get "schema_org" p))) [
    | inl e ↦ (_, refl, rw e refl)
    | inr e ↦ (_, refl, rw e refl)
  ]

checkout-proves :
    (d : Json)
    → domain_reads d ≡ true
    → (es : List String) × (checkout_evidence d ≡ ok es)
      × (is_empty es ≡ not (domain_shows Flag.transactional_checkout d))
unfolding checkout_evidence
checkout-proves d h =
    let (u, p) = both_true _ _ h in
    let ucp = says-reads "has_checkout" (Json.get "ucp" d) u in
    let payments = says-reads "any_non_ucp" (Json.get "agent_payments" d) p in
    (
      (if is_true (Json.get "has_checkout" (Json.get "ucp" d)) then "ucp:has_checkout" ∷ [] else [])
          ++ (if is_true (Json.get "any_non_ucp" (Json.get "agent_payments" d))
              then "agent_payments:any_non_ucp" ∷ []
              else []),
      rw (ucp, payments) refl,
      either_shown (is_true (Json.get "has_checkout" (Json.get "ucp" d)))
          (is_true (Json.get "any_non_ucp" (Json.get "agent_payments" d))),
    )
  where
    both_true : (a b : Bool) → (a && b) ≡ true → (a ≡ true) × (b ≡ true)
    both_true true b h = (refl, h)
    both_true false b h = absurd cc

    either_shown :
        (a b : Bool)
        → is_empty {A = String} (
            (if a then "ucp:has_checkout" ∷ [] else [])
            ++ (if b then "agent_payments:any_non_ucp" ∷ [] else []))
          ≡ not (a || b)
    either_shown true b = refl
    either_shown false true = refl
    either_shown false false = refl

by_default-sets : (o : Option Bool) → ((by_default o).value ≡ some true) ↔ (sets o ≡ true)
by_default-sets none = (λ h. absurd cc, λ h. absurd cc)
by_default-sets (some true) = (λ _. refl, λ _. refl)
by_default-sets (some false) = (λ h. absurd cc, λ h. absurd cc)

capability_from-true :
    (site_type : String) (flag : Flag) (es : List String) (shown : Bool)
    → is_empty es ≡ not shown
    → ((capability_from site_type flag es).value ≡ some true)
      ↔ ((shown || sets (type_default_of site_type flag)) ≡ true)
capability_from-true site_type flag [] true h = absurd cc
capability_from-true site_type flag (e ∷ es) true h = (λ _. refl, λ _. refl)
capability_from-true site_type flag [] false h = by_default-sets (type_default_of site_type flag)
capability_from-true site_type flag (e ∷ es) false h = absurd cc

catalog_for-keep :
    (site_type : String) (es : List String)
    → catalog_for site_type es ≡ keep (kept_of (str_eq "saas" site_type)) es
catalog_for-keep site_type es = elim (Bool-cases (str_eq "saas" site_type)) [
  | inl e ↦ rw e refl
  | inr e ↦ rw e (sym (keep_all es))
]

or_no : (a b : Bool) → b ≡ not a → b ≡ not (a || false)
or_no true b h = h
or_no false b h = h

any_none : (pages : List Json) → any (λ p. is_read p && false) pages ≡ false
any_none [] = refl
any_none (p ∷ ps) = elim (Bool-cases (is_read p)) [
  | inl e ↦ rw e (any_none ps)
  | inr e ↦ rw e (any_none ps)
]

each_flag :
    (P : Flag → Type 0)
    → P Flag.product_catalog
    → P Flag.physical_goods
    → P Flag.transactional_checkout
    → (flag : Flag) → P flag
each_flag P a b c Flag.product_catalog = a
each_flag P a b c Flag.physical_goods = b
each_flag P a b c Flag.transactional_checkout = c

module _ (show : Json → String) where
  -- the capabilities of evidence that can be read, and when a flag is true
  pub record AreDerived (site_type : String) (pages : List Json) (domain : Json) : Type 0 where
    pub caps : Capabilities
    pub derived : derive_capabilities show site_type pages domain ≡ ok caps
    pub true_if :
        (flag : Flag)
        → ((flag_of caps flag).value ≡ some true)
          ↔ (is_established site_type pages domain flag ≡ true)

  pub derive_capabilities-AreDerived :
      (site_type : String) (pages : List Json) (domain : Json)
      → AreReadable pages domain
      → AreDerived site_type pages domain
  unfolding derive_capabilities is_established
  derive_capabilities-AreDerived site_type pages domain h =
      let b = str_eq "saas" site_type in
      let (catalog, p, n) =
        pages_evidence-keep show Flag.product_catalog (kept_of b) (shows_catalog b)
          (catalog-Proves show b) 0 pages h.pages_read in
      let (goods, q, m) =
        pages_evidence-keep show Flag.physical_goods (λ e. true)
          (λ x. schema_has_shipping (Json.get "schema_org" x)) (goods-Proves show) 0 pages
          h.pages_read in
      let (checkout, r, l) = checkout-proves domain h.domain_read in
      let some_goods = ap is_empty (sym (keep_all goods)) ∙ m in
      let some_catalog = ap is_empty (catalog_for-keep site_type catalog) ∙ n in
      record {
        caps = record {
          product_catalog =
              capability_from site_type Flag.product_catalog (catalog_for site_type catalog);
          physical_goods = capability_from site_type Flag.physical_goods goods;
          transactional_checkout = capability_from site_type Flag.transactional_checkout checkout;
        };
        derived = rw (p, q, r) refl;
        true_if =
            each_flag _
              (capability_from-true site_type Flag.product_catalog (catalog_for site_type catalog)
                (any (λ p. is_read p && shows site_type Flag.product_catalog p) pages || false)
                (or_no _ _ some_catalog))
              (capability_from-true site_type Flag.physical_goods goods
                (any (λ p. is_read p && shows site_type Flag.physical_goods p) pages || false)
                (or_no _ _ some_goods))
              (capability_from-true site_type Flag.transactional_checkout checkout
                (any (λ p. is_read p && false) pages
                  || domain_shows Flag.transactional_checkout domain)
                (l
                  ∙ ap (λ x. not (x || domain_shows Flag.transactional_checkout domain))
                      (sym (any_none pages))));
      }
