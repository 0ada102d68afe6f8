-- ===== src/Checks/Registry.antt =====
-- checks/registry.py: the check registry. A digit is an ASCII digit here.
use Prim.Native.Char.{code}
use scovant_core.Prelude.{
  ℕ, String, Bool, true, false, not, ◌&&◌, ◌||◌, Option, none, some, List, [], ◌∷◌, map, leb, any,
  if◌then◌else◌, str_eq, drop_prefix, repeats, keep, Result, ok, err, ◌>>◌, raise_if,
}
use scovant_core.Models.{Category, same_category, is_security}
use scovant_core.Checks.Base.{CoreCheck}

digit : ℕ → Bool
digit c = leb b'0' c && leb c b'9'

-- `\d{3}` up to the end
abbrev three_digits : ℕ → String → Bool
three_digits ℕ.zero String.[] = true
three_digits (ℕ.suc n) (String.◌∷◌ c s) = digit (code c) && three_digits n s
three_digits _ _ = false

digits_follow : Option String → Bool
digits_follow none = false
digits_follow (some rest) = three_digits 3 rest

-- `_ID_CATEGORY`, with the prefix that each word makes
abbrev id_categories : List (String × Category)
id_categories =
    ("CORE-ACCESS-", Category.access)
    ∷ ("CORE-MACHINE-", Category.machine)
    ∷ ("CORE-INTERFACE-", Category.interfaces)
    ∷ ("CORE-TRUST-", Category.trust)
    ∷ ("CORE-OPERABILITY-", Category.operability)
    ∷ ("CORE-SECURITY-", Category.security)
    ∷ []

first_match : List (String × Category) → String → Option Category
unfolding digits_follow drop_prefix digit
first_match [] id = none
first_match ((prefix, c) ∷ rest) id =
    let later = first_match rest id in
    if digits_follow (drop_prefix prefix id) then some c else later

-- `_ID_CATEGORY[_ID_RE.fullmatch(id).group(1)]`
unfoldable pub id_category : String → Option Category
unfolding first_match
id_category id = first_match id_categories id

abbrev family_prefixes : List String
family_prefixes = "SEC-WEB-" ∷ "SEC-TXT-" ∷ "MACHINE-DATA-" ∷ "PROMPT-SURFACE-" ∷ "MCP-AUTH-" ∷ []

-- `_FAMILY_RE.fullmatch`
unfoldable pub family_matches : String → Bool
unfolding digits_follow drop_prefix digit
family_matches family = any (λ p. digits_follow (drop_prefix p family)) family_prefixes

pub data RegistryError : Type 0 where
  duplicate_check_id : RegistryError
  invalid_check_id : String → RegistryError
  wrong_category : String → RegistryError
  needs_family : String → RegistryError
  needs_domain_and_owner : String → RegistryError
  family_reserved : String → RegistryError
  duplicate_family_id : RegistryError

abbrev pub security_fields : CoreCheck → Result RegistryError (Unit {0})
security_fields c = do
  raise_if (not (family_matches c.family_id)) (needs_family c.id)
  raise_if (str_eq c.security_domain "" || str_eq c.fix_owner "") (needs_domain_and_owner c.id)

abbrev pub in_category : CoreCheck → Option Category → Result RegistryError (Unit {0})
in_category c none = err (invalid_check_id c.id)
in_category c (some expected) = do
  raise_if (not (same_category c.category expected)) (wrong_category c.id)
  if is_security c.category
      then security_fields c
      else raise_if (not (str_eq c.family_id "")) (family_reserved c.id)

-- the loop of `validate_registry`; `RETIRED_IDS` is empty
unfoldable pub check_each : List CoreCheck → Result RegistryError (Unit {0})
unfolding id_category family_matches
check_each [] = ok tt
check_each (c ∷ cs) = do in_category c (id_category c.id); check_each cs

abbrev pub has_family : CoreCheck → Bool
has_family c = not (str_eq c.family_id "")

-- `validate_registry`
unfoldable pub validate_registry : List CoreCheck → Result RegistryError (Unit {0})
unfolding check_each
validate_registry checks = do
  raise_if (repeats (map (λ c. c.id) checks)) duplicate_check_id
  check_each checks
  raise_if (repeats (map (λ c. c.family_id) (keep has_family checks))) duplicate_family_id
