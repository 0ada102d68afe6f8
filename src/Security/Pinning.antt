-- ===== src/Security/Pinning.antt =====
-- What the pinning transport connects to.
use mathlib.Core.Path.{subst}
use scovant_core.Prelude.{
  ℕ, String, ◌≡◌, refl, ◌∙◌, ap, inl, inr, Bool, true, false, not, ◌&&◌, ◌||◌, Option, none, some,
  List, [], ◌∷◌, All, is_some, Bool-cases, keep, eq_iff, eq_refl, ==_iff, lower, Result, ok, err,
  >>=-eq-ok, raised_last,
}
use scovant_core.Security.Policy.{SecurityPolicy, is_exempt}
use scovant_core.Security.UrlSafety.{
  Library, UnsafeUrl, text_is_blocked, blocked_or_name, assert_public_address, assert_each, port_or,
}
use scovant_core.Security.Pinned.{
  Pin, is_pin_of, find_pin, ConnectError, first_or, is_v4_text, passes, Pinned, all_public, pin_new,
  pin_or_new, pin, refused_unless, handle_request,
}

and_left : (a b : Bool) → (a && b) ≡ true → a ≡ true
and_left true b h = refl
and_left false b h = cc

must_pass : (x b : Bool) → x ≡ false → (not x && not b) ≡ false → b ≡ true
must_pass x true p h = refl
must_pass x false p h = let q = rw p at h in cc

module _ (lib : Library) where
  -- the address is none that `_ip_is_blocked` blocks
  abbrev pub IsPublic : String → Type 0
  IsPublic ip = blocked_or_name (text_is_blocked lib ip) ≡ false

  assert_each-IsPublic : (ips : List String) → assert_each lib ips ≡ ok tt → All IsPublic ips
  unfolding assert_each assert_public_address
  assert_each-IsPublic [] h = tt
  assert_each-IsPublic (ip ∷ ips) h =
      let (u, p, h') = >>=-eq-ok (assert_public_address lib ip) _ h in
      (raised_last _ _ p, assert_each-IsPublic ips h')

  passes-ok : (r : Result UnsafeUrl (Unit {0})) → passes r ≡ true → r ≡ ok tt
  passes-ok (ok u) h = refl
  passes-ok (err e) h = absurd cc

  module _ (policy : SecurityPolicy) where
    all_public-IsPublic : (ips : List String) → all_public lib policy ips ≡ true → All IsPublic ips
    unfolding all_public
    all_public-IsPublic ips h = assert_each-IsPublic ips (passes-ok (assert_each lib ips) h)

    -- a host that is exempt, or an address that is public
    abbrev pub Allowed : String → String → Type 0
    Allowed host ip = is_exempt policy host ≡ false → IsPublic ip

    abbrev pub AllAllowed : List Pin → Type 0
    AllAllowed cache = All (λ p. Allowed p.host p.ip) cache

    keep-All :
        (P : String → Type 0) (t : String → Bool) (xs : List String) → All P xs → All P (keep t xs)
    keep-All P t [] h = tt
    keep-All P t (x ∷ xs) h = elim (Bool-cases (t x)) [
      | inl e ↦ rw e (h.0, keep-All P t xs h.1)
      | inr e ↦ rw e (keep-All P t xs h.1)
    ]

    first_or-All :
        (P : String → Type 0) (xs : List String) (a : String) → All P xs → P a → P (first_or xs a)
    first_or-All P [] a h k = k
    first_or-All P (x ∷ xs) a h k = h.0

    find_pin-Allowed :
        (host : String) (port : ℕ) (cache : List Pin) {ip : String}
        → AllAllowed cache
        → find_pin host port cache ≡ some ip
        → Allowed host ip
    find_pin-Allowed host port [] h q = absurd cc
    find_pin-Allowed host port (p ∷ ps) {ip} h q = elim (Bool-cases (is_pin_of host port p)) [
      | inr e ↦ find_pin-Allowed host port ps h.1 (rw e at q)
      | inl e ↦
          let r : some p.ip ≡ some ip = rw e at q in
          let same_ip : p.ip ≡ ip = cc in
          let same_host : p.host ≡ host = (eq_iff p.host host).0 (and_left _ _ e) in
          λ x. subst IsPublic same_ip (h.0 (ap (is_exempt policy) same_host ∙ x))
    ]

    -- The cache that a call leaves, and the address that it gives.
    pub record IsSafe (host : String) (r : Pinned) : Type 0 where
      pub cache : AllAllowed r.cache
      pub answer : (ip : String) → r.answer ≡ ok ip → Allowed host ip

    pin_new-IsSafe :
        (host : String) (port : ℕ) (cache : List Pin) (infos : Option (List String))
        → AllAllowed cache
        → IsSafe host (pin_new lib policy host port cache infos)
    pin_new-IsSafe host port cache none h = record { cache = h; answer = λ ip q. absurd cc }
    pin_new-IsSafe host port cache (some []) h = record { cache = h; answer = λ ip q. absurd cc }
    pin_new-IsSafe host port cache (some (a ∷ more)) h =
        let chosen = first_or (keep is_v4_text (a ∷ more)) a in
        elim (Bool-cases (not (is_exempt policy host) && not (all_public lib policy (a ∷ more)))) [
          | inl e ↦ rw e (record { cache = h; answer = λ ip q. absurd cc })
          | inr e ↦
              let allowed : Allowed host chosen = λ x.
                let all = all_public-IsPublic (a ∷ more) (must_pass _ _ x e) in
                first_or-All IsPublic (keep is_v4_text (a ∷ more)) a
                  (keep-All IsPublic is_v4_text (a ∷ more) all) all.0 in
              rw e (record {
                cache = (allowed, h);
                answer = λ ip q. let same : chosen ≡ ip = cc in subst (Allowed host) same allowed;
              })
        ]

    pin_or_new-IsSafe :
        (host : String) (port : ℕ) (cache : List Pin) (infos : Option (List String))
        (found : Option String)
        → AllAllowed cache
        → find_pin host port cache ≡ found
        → IsSafe host (pin_or_new lib policy host port cache infos found)
    pin_or_new-IsSafe host port cache infos none h q = pin_new-IsSafe host port cache infos h
    pin_or_new-IsSafe host port cache infos (some ip) h q = record {
      cache = h;
      answer = λ k r.
          let same : ip ≡ k = cc in
          subst (Allowed host) same (find_pin-Allowed host port cache h q);
    }

    pin-IsSafe :
        (host : String) (port : ℕ) (cache : List Pin) (infos : Option (List String))
        → AllAllowed cache
        → IsSafe host (pin lib policy host port cache infos)
    unfolding pin
    pin-IsSafe host port cache infos h = pin_or_new-IsSafe host port cache infos _ h refl

    -- the host of a request, as the transport reads it
    abbrev pub host_of : String → String
    host_of url = lower (lib.urlparse url).hostname

    refused-Allowed :
        (host : String) (b : Bool) (x : Bool)
        → (x ≡ false → b ≡ true → IsPublic host)
        → (ip : String) → refused_unless lib policy (x || b) host ≡ ok ip
        → x ≡ false
        → IsPublic ip
    refused-Allowed host true false f ip q e =
        let same : host ≡ ip = cc in subst IsPublic same (f e refl)
    refused-Allowed host false false f ip q e = absurd cc
    refused-Allowed host b true f ip q e = absurd cc

    -- Whatever the resolver answers, a request connects to no blocked address unless its own host is
    -- exempt: if each cached address is public or of an exempt host, then so is the address that
    -- `handle_request` connects to, for the host of the request, and each address that it leaves cached.
    pub handle_request-IsSafe :
        (url : String) (cache : List Pin) (infos : Option (List String))
        → AllAllowed cache
        → IsSafe (host_of url) (handle_request lib policy url cache infos)
    unfolding handle_request
    handle_request-IsSafe url cache infos h =
        let host = host_of url in
        elim (Bool-cases (is_some (lib.ip_address host))) [
          | inr e ↦
              rw e
                (pin-IsSafe host (port_or (lib.urlparse url) (lib.urlparse url).port) cache infos h)
          | inl e ↦ rw e (record {
            cache = h;
            answer =
                refused-Allowed host (all_public lib policy (host ∷ [])) (is_exempt policy host)
                  (λ _ q. (all_public-IsPublic (host ∷ []) q).0);
          })
        ]

    find_pin-new :
        (host : String) (port : ℕ) (cache : List Pin) (ip : String)
        → find_pin host port (record { host = host; port = port; ip = ip } ∷ cache) ≡ some ip
    find_pin-new host port cache ip = rw (eq_refl host, (==_iff port port).1 refl) refl

    pin_new_stays :
        (host : String) (port : ℕ) (cache : List Pin) (infos : Option (List String)) {ip : String}
        → (pin_new lib policy host port cache infos).answer ≡ ok ip
        → find_pin host port (pin_new lib policy host port cache infos).cache ≡ some ip
    pin_new_stays host port cache none q = absurd cc
    pin_new_stays host port cache (some []) q = absurd cc
    pin_new_stays host port cache (some (a ∷ more)) {ip} q =
        elim (Bool-cases (not (is_exempt policy host) && not (all_public lib policy (a ∷ more)))) [
          | inl e ↦ let r = rw e at q in absurd cc
          | inr e ↦
              let chosen = first_or (keep is_v4_text (a ∷ more)) a in
              let r : ◌≡◌ {A = Result ConnectError String} (ok chosen) (ok ip) = rw e at q in
              let same : chosen ≡ ip = cc in
              rw e (find_pin-new host port cache chosen ∙ ap (λ x. some x) same)
        ]

    pin_or_new_stays :
        (host : String) (port : ℕ) (cache : List Pin) (infos : Option (List String))
        (found : Option String) {ip : String}
        → find_pin host port cache ≡ found
        → (pin_or_new lib policy host port cache infos found).answer ≡ ok ip
        → find_pin host port (pin_or_new lib policy host port cache infos found).cache ≡ some ip
    pin_or_new_stays host port cache infos none p q = pin_new_stays host port cache infos q
    pin_or_new_stays host port cache infos (some k) {ip} p q =
        let same : k ≡ ip = cc in p ∙ ap (λ x. some x) same

    -- DNS rebinding: once a host and port have been given an address, every later call gives the same
    -- address and leaves the cache alone, whatever the resolver would answer to it.
    pub pin_stays :
        (host : String) (port : ℕ) (cache : List Pin) (infos later : Option (List String))
        {ip : String}
        → (pin lib policy host port cache infos).answer ≡ ok ip
        → pin lib policy host port (pin lib policy host port cache infos).cache later
          ≡ record { cache = (pin lib policy host port cache infos).cache; answer = ok ip }
    unfolding pin
    pin_stays host port cache infos later q =
        ap (pin_or_new lib policy host port _ later)
          (pin_or_new_stays host port cache infos _ refl q)
