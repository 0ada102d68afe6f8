-- ===== src/Security/Tests.antt =====
-- The theorems on the transport and the client at a small library and network.
use scovant_core.Prelude.{
  ℕ, String, ◌≡◌, refl, Bool, true, false, Option, none, some, List, [], ◌∷◌, if◌then◌else◌, str_eq,
  Result, ok, err,
}
use scovant_core.Security.Address.{Address, Version, ip_is_blocked}
use scovant_core.Security.UrlSafety.{Library, Url, text_is_blocked}
use scovant_core.Security.Policy.{SecurityPolicy, default_size_limits, limit_for}
use scovant_core.Security.Pinned.{pin, handle_request}
use scovant_core.Security.Pinning.{IsSafe, host_of, handle_request-IsSafe, pin_stays}
use scovant_core.Security.Client.{FetchKind, Response, State, bad_header, fetch}
use scovant_core.Security.Fetch.{IsFetched, fetch-IsFetched, Alike, fetch_alike}

abbrev shop : Url
shop = record {
  scheme = "https";
  netloc = "shop.test";
  username = "";
  password = "";
  hostname = "shop.test";
  port = none;
  path = "/";
  query = "";
}

abbrev address_of : String → Option Address
address_of s =
    if str_eq s "10.0.0.1"
    then some (record { version = Version.v4; bits = 167772161 })
    else if str_eq s "8.8.8.8"
    then some (record { version = Version.v4; bits = 134744072 })
    else none

abbrev library : Library
library = record {
  urlparse = λ url. shop;
  ip_address = address_of;
  special = λ a. false;
  getaddrinfo = λ host port. some ("8.8.8.8" ∷ []);
}

abbrev policy : SecurityPolicy
policy = record {
  allow_private_networks = false;
  private_hosts = [];
  max_redirects = 2;
  size_limits = default_size_limits;
}

private_test : text_is_blocked library "10.0.0.1" ≡ some true
unfolding text_is_blocked ip_is_blocked
private_test = refl

handle_request-IsSafe_example :
    IsSafe library policy
      (host_of library policy "https://shop.test/")
      (handle_request library policy "https://shop.test/" [] (some ("8.8.8.8" ∷ [])))
handle_request-IsSafe_example =
    handle_request-IsSafe library policy "https://shop.test/" [] (some ("8.8.8.8" ∷ [])) tt

first_pin : (pin library policy "shop.test" 443 [] (some ("8.8.8.8" ∷ []))).answer ≡ ok "8.8.8.8"
unfolding pin
first_pin = refl

pin_stays_example :
    pin library policy "shop.test" 443
      (pin library policy "shop.test" 443 [] (some ("8.8.8.8" ∷ []))).cache
      (some ("10.0.0.1" ∷ []))
    ≡ record {
      cache = (pin library policy "shop.test" 443 [] (some ("8.8.8.8" ∷ []))).cache;
      answer = ok "8.8.8.8";
    }
pin_stays_example =
    pin_stays library policy "shop.test" 443 [] (some ("8.8.8.8" ∷ [])) (some ("10.0.0.1" ∷ []))
      first_pin

abbrev onward : String → String → String
onward base location = location

abbrev never_late : ℕ → Bool
never_late n = false

-- a network that redirects once, sets a cookie, and answers otherwise to a request that has one
abbrev answer_to : String → Response
answer_to url =
    if str_eq url "https://shop.test/"
    then record {
      status = 301;
      location = some "https://shop.test/en";
      set_cookies = "sid=1" ∷ [];
      chunks = [];
    }
    else record {
      status = 200;
      location = none;
      set_cookies = [];
      chunks = (60 ∷ 104 ∷ []) ∷ (62 ∷ []) ∷ [];
    }

abbrev network : String → List String → Result FetchKind Response
network url [] = ok (answer_to url)
network url (c ∷ cs) = err FetchKind.network

abbrev silent : String → List String → Result FetchKind Response
silent url [] = ok (answer_to url)
silent url (c ∷ cs) = ok (answer_to url)

abbrev start : State
start = record { requests = []; cookies = []; readings = 0 }

no_headers : bad_header library policy onward never_late network [] ≡ false
unfolding bad_header
no_headers = refl

text_limit : limit_for policy "text" ≡ some 1048576
unfolding limit_for
text_limit = refl

fetch-IsFetched_example :
    IsFetched library policy onward never_late network 1048576
      (fetch library policy onward never_late network "https://shop.test/" "text" [] start)
fetch-IsFetched_example =
    fetch-IsFetched library policy onward never_late network "https://shop.test/" "text" [] 1048576
      start no_headers text_limit

networks-Alike : Alike library policy onward never_late network silent
networks-Alike url = refl

fetch_alike_example :
    fetch library policy onward never_late network "https://shop.test/" "text" [] start
    ≡ fetch library policy onward never_late silent "https://shop.test/" "text" [] start
fetch_alike_example =
    fetch_alike library policy onward never_late network silent "https://shop.test/" "text" [] start
      networks-Alike refl
