-- ===== src/Rules/Conforming/Remembered.antt =====
-- What the cache of conformed evidence gives.
use mathlib.Core.Path.{subst}
use scovant_core.Prelude.{
  ℕ, suc, ◌≤◌, ◌≡◌, refl, sym, ◌∙◌, ap, inl, inr, Bool, true, false, ◌&&◌, Option, none, some, List,
  [], ◌∷◌, length, ltb, ◌==◌, ==_iff, Bool-cases, Option-cases, All, arith,
}
use scovant_core.Prelude.Json.{Json, is_object}
use scovant_core.Rules.Conforming.{
  Kind, page, domain, same_kind, build, Entry, cache_size, has_key, find_entry, put_entry, trim,
  kept_for, look, store, remembered, conform_page, conform_domain, conformed_page, conformed_domain,
}

same_kind_refl : (k : Kind) → same_kind k k ≡ true
same_kind_refl page = refl
same_kind_refl domain = refl

own_key : (e : Entry) → has_key e.kind e.address e ≡ true
own_key e = rw (same_kind_refl e.kind) ((==_iff e.address e.address).1 refl)

find-put_entry :
    (e : Entry) (es : List Entry) → find_entry e.kind e.address (put_entry e es) ≡ some e
find-put_entry e [] = rw (own_key e) refl
find-put_entry e (x ∷ xs) = elim (Bool-cases (has_key e.kind e.address x)) [
  | inl q ↦ rw q (rw (own_key e) refl)
  | inr q ↦ rw q (rw q (find-put_entry e xs))
]

length-put_entry : (e : Entry) (es : List Entry) → length (put_entry e es) ≤ suc (length es)
length-put_entry e [] = omega arith
length-put_entry e (x ∷ xs) = ground (arith, length-put_entry e xs)

trim_short : (es : List Entry) → length es ≤ cache_size → trim es ≡ es
trim_short [] h = refl
trim_short (e ∷ es) h = ground arith

length-trim : (es : List Entry) → length (trim es) ≤ cache_size
length-trim [] = omega arith
length-trim (e ∷ es) = ground (arith, length-trim es)

-- what was stored last is not what is dropped
find-trim-put_entry :
    (e : Entry) (es : List Entry)
    → length es ≤ cache_size
    → find_entry e.kind e.address (trim (put_entry e es)) ≡ some e
find-trim-put_entry e [] h = rw (own_key e) refl
find-trim-put_entry e (x ∷ xs) h = elim (Bool-cases (has_key e.kind e.address x)) [
  | inl q ↦ rw q (rw (trim_short (e ∷ xs) (omega arith)) (rw (own_key e) refl))
  | inr q ↦ rw q (elim (Bool-cases (ltb cache_size (length (x ∷ put_entry e xs)))) [
    | inl more ↦ rw more (
        rw (trim_short (put_entry e xs) (omega (arith, length-put_entry e xs)))
          (find-put_entry e xs))
    | inr fits ↦ rw fits (rw q (find-put_entry e xs))
  ])
]

module _ (address : ℕ → ℕ) (value : ℕ → Json) where
  -- an entry was built from the object that it keeps
  abbrev pub WasBuilt : Entry → Type 0
  WasBuilt e = e.result ≡ build e.kind (value e.object_kept)

  pub record IsCache (es : List Entry) : Type 0 where
    pub built : All WasBuilt es
    pub bounded : length es ≤ cache_size

both_true : (a b : Bool) → (a && b) ≡ true → (a ≡ true) × (b ≡ true)
both_true true b h = (refl, h)
both_true false b h = absurd cc

same_kind-eq : (j k : Kind) → same_kind j k ≡ true → j ≡ k
same_kind-eq page page h = refl
same_kind-eq domain domain h = refl
same_kind-eq page domain h = absurd cc
same_kind-eq domain page h = absurd cc

module _ (P : Entry → Type 0) where
  found :
      (k : Kind) (a : ℕ) (es : List Entry) {e : Entry}
      → All P es
      → find_entry k a es ≡ some e
      → P e × (has_key k a e ≡ true)
  found k a [] h q = absurd cc
  found k a (x ∷ xs) {e} h q = elim (Bool-cases (has_key k a x)) [
    | inl b ↦
        let same : x ≡ e = cc (rw b at q) in subst (λ y. P y × (has_key k a y ≡ true)) same (h.0, b)
    | inr b ↦ found k a xs h.1 (rw b at q)
  ]

  All-put_entry : (e : Entry) (es : List Entry) → P e → All P es → All P (put_entry e es)
  All-put_entry e [] p h = (p, tt)
  All-put_entry e (x ∷ xs) p h = elim (Bool-cases (has_key e.kind e.address x)) [
    | inl b ↦ rw b (p, h.1)
    | inr b ↦ rw b (h.0, All-put_entry e xs p h.1)
  ]

  All-trim : (es : List Entry) → All P es → All P (trim es)
  All-trim [] h = tt
  All-trim (e ∷ es) h = elim (Bool-cases (ltb cache_size (length (e ∷ es)))) [
    | inl b ↦ rw b (All-trim es h.1)
    | inr b ↦ rw b h
  ]

module _ (address : ℕ → ℕ) (value : ℕ → Json) where
  store-IsCache :
      (k : Kind) (obj : ℕ) (es : List Entry)
      → IsCache address value es
      → IsCache address value (store address value k obj (build k (value obj)) es)
  unfolding store
  store-IsCache k obj es c =
      let e : Entry = record {
        kind = k;
        address = address obj;
        object_kept = obj;
        result = build k (value obj);
      } in
      record {
        built =
            All-trim (WasBuilt address value) (put_entry e es)
              (All-put_entry (WasBuilt address value) e es refl c.built);
        bounded = length-trim (put_entry e es);
      }

  kept-build :
      (k : Kind) (obj : ℕ) (o : Option Entry) {r : Json}
      → ((e : Entry) → o ≡ some e → WasBuilt address value e × (e.kind ≡ k))
      → kept_for address value obj o ≡ some r
      → r ≡ build k (value obj)
  kept-build k obj none f h = absurd cc
  kept-build k obj (some e) {r} f h = elim (Bool-cases (e.object_kept == obj)) [
    | inl b ↦
        let same : e.object_kept ≡ obj = (==_iff e.object_kept obj).0 b in
        let result : e.result ≡ r = cc (rw b at h) in
        let (was_built, kind) = f e refl in
        sym result
        ∙ was_built
        ∙ ap (λ j. build j (value e.object_kept)) kind
        ∙ ap (λ o. build k (value o)) same
    | inr b ↦ absurd (cc (rw b at h))
  ]

  look-build :
      (k : Kind) (obj : ℕ) (es : List Entry) {r : Json}
      → IsCache address value es
      → look address value k obj es ≡ some r
      → r ≡ build k (value obj)
  unfolding look
  look-build k obj es c h =
      kept-build k obj (find_entry k (address obj) es)
        (λ e q.
          let (was_built, key) = found (WasBuilt address value) k (address obj) es c.built q in
          (
            was_built,
            same_kind-eq e.kind k (both_true (same_kind e.kind k) (e.address == address obj) key).0,
          ))
        h

  look-store :
      (k : Kind) (obj : ℕ) (r : Json) (es : List Entry)
      → IsCache address value es
      → look address value k obj (store address value k obj r es) ≡ some r
  unfolding look store
  look-store k obj r es c =
      let e : Entry = record { kind = k; address = address obj; object_kept = obj; result = r } in
      rw (find-trim-put_entry e es c.bounded) (rw ((==_iff obj obj).1 refl) refl)

  -- the result of `build`, and a cache
  record Remembers (k : Kind) (obj : ℕ) (got : Json × List Entry) : Type 0 where
    result : got.0 ≡ build k (value obj)
    cache : IsCache address value got.1

  remembered-Remembers :
      (k : Kind) (obj : ℕ) (es later : List Entry)
      → IsCache address value es
      → IsCache address value later
      → Remembers k obj (remembered address value k obj es later)
  unfolding remembered
  remembered-Remembers k obj es later c d = elim (Option-cases (look address value k obj es)) [
    | inl q ↦ rw q (record { result = refl; cache = store-IsCache k obj later d })
    | inr (r, q) ↦ rw q (record { result = look-build k obj es c q; cache = d })
  ]

  look-remembered :
      (k : Kind) (obj : ℕ) (es : List Entry)
      → IsCache address value es
      → let (r, after) = remembered address value k obj es es in
        look address value k obj after ≡ some r
  unfolding remembered
  look-remembered k obj es c = elim (Option-cases (look address value k obj es)) [
    | inl q ↦ rw q (look-store k obj (build k (value obj)) es c)
    | inr (r, q) ↦ rw q q
  ]

  -- what the two callers give: what they would give without a cache, and a cache
  pub record AsUncached (obj : ℕ) (es later : List Entry) : Type 0 where
    pub page_result : (conform_page address value obj es later).0 ≡ conformed_page (value obj)
    pub page_cache : IsCache address value (conform_page address value obj es later).1
    pub domain_result : (conform_domain address value obj es later).0 ≡ conformed_domain (value obj)
    pub domain_cache : IsCache address value (conform_domain address value obj es later).1

  -- The cache of conformed evidence is not seen by its callers, also where objects share an address at
  -- different times and where other threads change the cache during a call: if every entry of the
  -- cache was built from the object that it keeps, and there are no more entries than its size, then
  -- `conform_page` and `conform_domain` give what they would give without a cache, and leave a cache of
  -- this kind.
  pub conform-AsUncached :
      (obj : ℕ) (es later : List Entry)
      → IsCache address value es
      → IsCache address value later
      → AsUncached obj es later
  unfolding conform_page conform_domain
  conform-AsUncached obj es later c d = elim (Bool-cases (is_object (value obj))) [
    | inl b ↦
        let p = remembered-Remembers page obj es later c d in
        let q = remembered-Remembers domain obj es later c d in
        record {
          page_result = rw b p.result;
          page_cache = rw b p.cache;
          domain_result = rw b q.result;
          domain_cache = rw b q.cache;
        }
    | inr b ↦ record {
      page_result = rw b refl;
      page_cache = rw b d;
      domain_result = rw b refl;
      domain_cache = rw b d;
    }
  ]

  -- The cache remembers: right after a call for a page that is a dictionary, undisturbed by other
  -- threads, the first look for the same page finds the result of that call.
  look-conform_page :
      (obj : ℕ) (es : List Entry)
      → IsCache address value es
      → is_object (value obj) ≡ true
      → let (r, after) = conform_page address value obj es es in
        look address value page obj after ≡ some r
  unfolding conform_page
  look-conform_page obj es c b = rw b (look-remembered page obj es c)
