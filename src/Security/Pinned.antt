-- ===== src/Security/Pinned.antt =====
-- security/pinned_transport.py: the transport that connects to the address it has checked. The resolver
-- is a parameter of each call: it may answer anything, and another thing the next time.
use scovant_core.Prelude.{
  ℕ, String, Bool, true, false, not, ◌&&◌, ◌||◌, Option, none, some, List, [], ◌∷◌, if◌then◌else◌,
  is_some, str_eq, ◌==◌, occurs, keep, lower, Result, ok, err,
}
use scovant_core.Security.Policy.{SecurityPolicy, is_exempt}
use scovant_core.Security.UrlSafety.{Library, UnsafeUrl, assert_each, port_or}

pub record Pin : Type 0 where
  pub host : String
  pub port : ℕ
  pub ip : String

abbrev pub is_pin_of : String → ℕ → Pin → Bool
is_pin_of host port p = str_eq p.host host && p.port == port

-- `self._cache.get((host, port))`
abbrev pub find_pin : String → ℕ → List Pin → Option String
find_pin host port [] = none
find_pin host port (p ∷ ps) = if is_pin_of host port p then some p.ip else find_pin host port ps

-- the `ConnectError`s
pub data ConnectError : Type 0 where
  could_not_resolve blocked_by_policy : ConnectError

unfoldable pub is_v4_text : String → Bool
unfolding occurs
is_v4_text a = not (occurs ":" a)

-- `(v4 or addresses)[0]`, on addresses that are not empty
abbrev pub first_or : List String → String → String
first_or [] a = a
first_or (x ∷ xs) a = x

-- what `_pin` gives: the cache that it leaves and the address
pub record Pinned : Type 0 where
  pub cache : List Pin
  pub answer : Result ConnectError String

abbrev pub passes : Result UnsafeUrl (Unit {0}) → Bool
passes (ok u) = true
passes (err e) = false

module _ (lib : Library) (policy : SecurityPolicy) where
  -- the loop over the addresses
  unfoldable pub all_public : List String → Bool
  unfolding assert_each
  all_public ips = passes (assert_each lib ips)

  -- `_pin` behind the look-up in the cache
  abbrev pub pin_new : String → ℕ → List Pin → Option (List String) → Pinned
  pin_new host port cache none = record { cache = cache; answer = err could_not_resolve }
  pin_new host port cache (some []) = record { cache = cache; answer = err could_not_resolve }
  pin_new host port cache (some (a ∷ more)) =
      let chosen = first_or (keep is_v4_text (a ∷ more)) a in
      if not (is_exempt policy host) && not (all_public (a ∷ more))
      then record { cache = cache; answer = err blocked_by_policy }
      else record {
        cache = record { host = host; port = port; ip = chosen } ∷ cache;
        answer = ok chosen;
      }

  abbrev pub pin_or_new : String → ℕ → List Pin → Option (List String) → Option String → Pinned
  pin_or_new host port cache infos (some ip) = record { cache = cache; answer = ok ip }
  pin_or_new host port cache infos none = pin_new host port cache infos

  -- `_pin`, on what the resolver would answer to this call
  unfoldable pub pin : String → ℕ → List Pin → Option (List String) → Pinned
  unfolding all_public is_v4_text
  pin host port cache infos = pin_or_new host port cache infos (find_pin host port cache)

  abbrev pub refused_unless : Bool → String → Result ConnectError String
  refused_unless true ip = ok ip
  refused_unless false ip = err blocked_by_policy

  -- the address that `handle_request` connects to
  unfoldable pub handle_request : String → List Pin → Option (List String) → Pinned
  unfolding pin all_public lower
  handle_request url cache infos =
      let p = lib.urlparse url in
      let host = lower p.hostname in
      if is_some (lib.ip_address host)
      then record {
        cache = cache;
        answer = refused_unless (is_exempt policy host || all_public (host ∷ [])) host;
      }
      else pin host (port_or p p.port) cache infos
