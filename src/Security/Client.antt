-- ===== src/Security/Client.antt =====
-- security/client.py: `fetch` with its redirect loop, its size cap and its deadline. What the network
-- answers is a parameter: a function of the URL and of the cookies that the request carries. So are
-- the joining of URLs, and the readings of the clock: whether the n-th one is past the scan's budget.
use Prim.Native.Char.{Char, code}
use scovant_core.Prelude.{
  ℕ, suc, ◌+◌, ◌-◌, String, Bool, true, false, not, ◌&&◌, Option, none, some, List, [], ◌∷◌, ◌++◌,
  any, length, ltb, ◌==◌, if◌then◌else◌, is_some, str_eq, contains, lower, Result, ok, err,
}
use scovant_core.Security.Policy.{SecurityPolicy, is_exempt, limit_for}
use scovant_core.Security.UrlSafety.{Library, UnsafeUrl, assert_safe_public_url}

-- the kinds of a `FetchError`
pub data FetchKind : Type 0 where
  security network timeout : FetchKind

-- What `fetch` raises. `bad_headers` is its `ValueError`, `no_limit` the `KeyError` of `limit_for`;
-- `out_of_fuel` is no exception of the code: the loop below counts its turns.
pub data FetchError : Type 0 where
  fetch_error : FetchKind → FetchError
  bad_headers no_limit out_of_fuel : FetchError

-- a response: its status, its Location header, the cookies that it sets, and its body by chunks of
-- bytes
pub record Response : Type 0 where
  pub status : ℕ
  pub location : Option String
  pub set_cookies : List String
  pub chunks : List (List ℕ)

-- an entry of `requests`; without a status the request failed
pub record LogEntry : Type 0 where
  pub url : String
  pub status : Option ℕ
  pub bytes : ℕ

-- what changes during a fetch: the log, the cookie jar, and the number of clock readings so far
pub record State : Type 0 where
  pub requests : List LogEntry
  pub cookies : List String
  pub readings : ℕ

pub record FetchResult : Type 0 where
  pub url : String
  pub final_url : String
  pub status : ℕ
  pub body : List ℕ
  pub bytes_len : ℕ
  pub redirect_chain : List String
  pub truncated : Bool

abbrev redirect_statuses : List ℕ
redirect_statuses = 301 ∷ 302 ∷ 303 ∷ 307 ∷ 308 ∷ []

abbrev pub is_redirect : Response → Bool
is_redirect r = any (λ n. n == r.status) redirect_statuses && is_some r.location

abbrev pub logged : String → Option ℕ → ℕ → State → State
logged url status bytes s = record s {
  requests = s.requests ++ record { url = url; status = status; bytes = bytes } ∷ [];
}

abbrev pub cleared : State → State
cleared s = record s { cookies = [] }

abbrev pub take : ℕ → List ℕ → List ℕ
take ℕ.zero xs = []
take (ℕ.suc n) [] = []
take (ℕ.suc n) (x ∷ xs) = x ∷ take n xs

-- what reading a body gives: the deadline passed, or the bytes
pub record Body : Type 0 where
  pub bytes : List ℕ
  pub total : ℕ
  pub truncated : Bool

pub record Read : Type 0 where
  pub readings : ℕ
  pub body : Option Body

-- one turn of `fetch`'s loop ends it or goes on with the next URL
pub data Turn : Type 0 where
  ended : State → Result FetchError FetchResult → Turn
  again : String → List String → State → Turn

-- the end of a turn, or the turns that follow it
abbrev pub carry_on :
    Turn
    → (String → List String → State → State × Result FetchError FetchResult)
    → State × Result FetchError FetchResult
carry_on (ended s r) rest = (s, r)
carry_on (again next chain s) rest = rest next chain s

module _ (late : ℕ → Bool) where
  -- the loop over the chunks; `none` is the `FetchError` of the deadline
  unfoldable pub read_chunks : ℕ → ℕ → List ℕ → ℕ → List (List ℕ) → Read
  read_chunks limit n got total [] = record {
    readings = n;
    body = some (record { bytes = got; total = total; truncated = false });
  }
  read_chunks limit n got total (c ∷ cs) =
      let rest = read_chunks limit (suc n) (got ++ c) (total + length c) cs in
      if late n
      then record { readings = suc n; body = none }
      else if ltb limit (total + length c)
      then record {
        readings = suc n;
        body =
            some
              (record { bytes = got ++ take (limit - total) c; total = limit; truncated = true });
      }
      else rest

abbrev with_first : Char → Option String → Option String
with_first c none = none
with_first c (some s) = some (String.◌∷◌ c s)

-- `url.split(":", 1)[0]`, where there is a colon
unfoldable pub before_colon : String → Option String
before_colon String.[] = none
before_colon (String.◌∷◌ c s) =
    let rest = before_colon s in if code c == b':' then some "" else with_first c rest

abbrev pub scheme_or : Option String → String
scheme_or none = ""
scheme_or (some s) = s

-- the kind that `_precheck` and `fetch` give to what the guard raises
abbrev pub kind_of : UnsafeUrl → FetchKind
kind_of UnsafeUrl.unresolvable = FetchKind.network
kind_of _ = FetchKind.security

abbrev pub precheck_kind : Result UnsafeUrl (Unit {0}) → Option FetchKind
precheck_kind (ok u) = none
precheck_kind (err e) = some (kind_of e)

module _ (lib : Library) (policy : SecurityPolicy) where
  -- `_precheck`
  unfoldable pub precheck : String → Option FetchKind
  unfolding assert_safe_public_url before_colon lower
  precheck url =
      let scheme = lower (scheme_or (before_colon url)) in
      if not (str_eq scheme "http") && not (str_eq scheme "https")
      then some FetchKind.security
      else if is_exempt policy (lower (lib.urlparse url).hostname)
      then none
      else precheck_kind (assert_safe_public_url lib false false url)

  -- `_guard_hook` with `ssrf_guard`, as the kind that `fetch` makes of its `SSRFBlocked`
  unfoldable pub guard_hook : String → Option FetchKind
  unfolding assert_safe_public_url lower
  guard_hook url =
      if is_exempt policy (lower (lib.urlparse url).hostname)
      then none
      else precheck_kind (assert_safe_public_url lib false true url)

  module _ (join : String → String → String) (late : ℕ → Bool)
      (net : String → List String → Result FetchKind Response) where
    abbrev pub location_or : Option String → String
    location_or none = ""
    location_or (some l) = l

    -- the end of a turn on a final response
    abbrev pub finish : String → String → List String → State → Response → Read → Turn
    finish url current chain s r read = elim read.body [
      | none ↦
          ended (cleared (record s { readings = read.readings }))
            (err (fetch_error FetchKind.timeout))
      | some b ↦
          ended
            (cleared
              (logged current (some r.status) b.total (record s { readings = read.readings })))
            (ok (record {
              url = url;
              final_url = current;
              status = r.status;
              body = b.bytes;
              bytes_len = b.total;
              redirect_chain = chain;
              truncated = b.truncated;
            }))
    ]

    -- a response: a redirect is followed, within the limit, with an empty jar
    unfoldable pub respond : ℕ → String → String → List String → State → Response → Turn
    unfolding read_chunks
    respond limit url current chain s r =
        let s' : State = record s { cookies = s.cookies ++ r.set_cookies } in
        let hop = cleared (logged current (some r.status) 0 s') in
        let chain' = chain ++ current ∷ [] in
        if is_redirect r
        then (if ltb policy.max_redirects (length chain')
            then ended hop (err (fetch_error FetchKind.network))
            else again (join current (location_or r.location)) chain' hop)
        else finish url current chain s' r (read_chunks late limit s'.readings [] 0 r.chunks)

    abbrev pub failed : String → State → FetchKind → Turn
    failed current s kind = ended (cleared (logged current none 0 s)) (err (fetch_error kind))

    unfoldable pub answered :
        ℕ → String → String → List String → State → Result FetchKind Response → Turn
    unfolding respond
    answered limit url current chain s (err kind) = failed current s kind
    answered limit url current chain s (ok r) = respond limit url current chain s r

    unfoldable pub guarded : ℕ → String → String → List String → State → Option FetchKind → Turn
    unfolding answered
    guarded limit url current chain s (some kind) = failed current s kind
    guarded limit url current chain s none =
        answered limit url current chain s (net current s.cookies)

    unfoldable pub prechecked : ℕ → String → String → List String → State → Option FetchKind → Turn
    unfolding guarded guard_hook
    prechecked limit url current chain s (some kind) = ended (cleared s) (err (fetch_error kind))
    prechecked limit url current chain s none =
        let s' : State = record s { readings = suc s.readings } in
        if late s.readings
        then ended (cleared s') (err (fetch_error FetchKind.timeout))
        else guarded limit url current chain s' (guard_hook current)

    -- one turn of the loop
    unfoldable pub turn : ℕ → String → String → List String → State → Turn
    unfolding prechecked precheck
    turn limit url current chain s = prechecked limit url current chain s (precheck current)

    -- the loop, on at most `fuel` turns
    unfoldable pub hops :
        ℕ → ℕ → String → String → List String → State → State × Result FetchError FetchResult
    unfolding turn
    hops ℕ.zero limit url current chain s = (s, err out_of_fuel)
    hops (ℕ.suc fuel) limit url current chain s =
        carry_on (turn limit url current chain s)
          (λ next chain' s'. hops fuel limit url next chain' s')

    abbrev allowed_headers : List String
    allowed_headers = "accept" ∷ "prefer" ∷ []

    unfoldable pub bad_header : List String → Bool
    unfolding lower
    bad_header names = any (λ k. not (contains allowed_headers (lower k))) names

    unfoldable pub fetch_within : Option ℕ → String → State → State × Result FetchError FetchResult
    unfolding hops
    fetch_within none url s = (s, err no_limit)
    fetch_within (some limit) url s = hops (suc policy.max_redirects) limit url url [] s

    -- `fetch`
    unfoldable pub fetch :
        String → String → List String → State → State × Result FetchError FetchResult
    unfolding fetch_within bad_header limit_for
    fetch url kind header_names s =
        if bad_header header_names
        then (s, err bad_headers)
        else fetch_within (limit_for policy kind) url s
