-- ===== src/Security/UrlSafety.antt =====
-- security/url_safety.py: the checks on an address to fetch. The parts of a URL, the text of an IP
-- address, its registries and the resolver belong to Python's library: parameters.
use scovant_core.Prelude.{
  ℕ, String, Bool, false, not, ◌&&◌, ◌||◌, Option, none, some, List, [], ◌∷◌, if◌then◌else◌, str_eq,
  occurs, lower, ◌==◌, Result, ok, err, ◌>>◌, raise_if,
}
use scovant_core.Security.Address.{Address, ip_is_blocked}

-- `urlparse(url)`: a part that is missing is empty, and a password that is missing is too
pub record Url : Type 0 where
  pub scheme : String
  pub netloc : String
  pub username : String
  pub password : String
  pub hostname : String
  pub port : Option ℕ
  pub path : String
  pub query : String

-- what the checks raise; `unresolvable` is `UnresolvableHost`
pub data UnsafeUrl : Type 0 where
  credentials not_https unsupported_scheme empty_or_localhost private_address unresolvable :
      UnsafeUrl

-- the library's part
pub record Library : Type 0 where
  pub urlparse : String → Url
  -- `none` is the `ValueError` on a text that is no address
  pub ip_address : String → Option Address
  pub special : Address → Bool
  -- `none` is the `gaierror`
  pub getaddrinfo : String → ℕ → Option (List String)

-- the outcome of the first check on a host: it is a literal address, blocked or not, or a name
abbrev pub blocked_or_name : Option Bool → Bool
blocked_or_name (some b) = b
blocked_or_name none = false

-- `parsed.port or (443 if ... else 80)`
abbrev pub default_port : Url → ℕ
default_port p = if str_eq p.scheme "https" then 443 else 80

abbrev pub port_or : Url → Option ℕ → ℕ
port_or p none = default_port p
port_or p (some n) = if n == 0 then default_port p else n

module _ (lib : Library) where
  -- `_ip_is_blocked`; `none` is its `ValueError`
  unfoldable pub text_is_blocked : String → Option Bool
  unfolding ip_is_blocked
  text_is_blocked s = elim (lib.ip_address s) [
    | none ↦ none
    | some a ↦ some (ip_is_blocked lib.special a)
  ]

  -- `has_userinfo`
  unfoldable pub has_userinfo : String → Bool
  unfolding occurs
  has_userinfo url =
      let p = lib.urlparse url in
      not (str_eq p.username "") || not (str_eq p.password "") || occurs "@" p.netloc

  -- `assert_public_address`. An address that the resolver returned is one that the library reads.
  unfoldable pub assert_public_address : String → Result UnsafeUrl (Unit {0})
  unfolding text_is_blocked
  assert_public_address ip = raise_if (blocked_or_name (text_is_blocked ip)) private_address

  unfoldable pub assert_each : List String → Result UnsafeUrl (Unit {0})
  unfolding assert_public_address
  assert_each [] = ok tt
  assert_each (ip ∷ ips) = do assert_public_address ip; assert_each ips

  abbrev pub resolved : Option (List String) → Result UnsafeUrl (Unit {0})
  resolved none = err unresolvable
  resolved (some ips) = assert_each ips

  -- the end of `assert_safe_public_url`, on the parts of the URL: a literal address is judged, a name is
  -- looked up where `resolve` says so
  abbrev pub judge_host : Url → Bool → Option Bool → Result UnsafeUrl (Unit {0})
  judge_host p resolve (some b) = raise_if b private_address
  judge_host p resolve none =
      if resolve then resolved (lib.getaddrinfo (lower p.hostname) (port_or p p.port)) else ok tt

  -- `assert_safe_public_url`
  unfoldable pub assert_safe_public_url : Bool → Bool → String → Result UnsafeUrl (Unit {0})
  unfolding has_userinfo text_is_blocked assert_each lower
  assert_safe_public_url require_https resolve url = do
    let p = lib.urlparse url
    raise_if (has_userinfo url) credentials
    raise_if (require_https && not (str_eq p.scheme "https")) not_https
    raise_if (not (str_eq p.scheme "http") && not (str_eq p.scheme "https")) unsupported_scheme
    raise_if (str_eq (lower p.hostname) "" || str_eq (lower p.hostname) "localhost")
        empty_or_localhost
    judge_host p resolve (text_is_blocked (lower p.hostname))
