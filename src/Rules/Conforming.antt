-- ===== src/Rules/Conforming.antt =====
-- rules/conform.py: the conformed page and domain, and the cache that remembers them. An object is a
-- number, its identity; its address, which is what `id` gives, and its value, which no host changes
-- between two calls of a rule, are parameters. The two locked regions of `_remembered` are two steps:
-- what other threads do to the cache between them is in the second cache.
pub mod Remembered
pub mod Documented
mod Tests
use scovant_core.Prelude.{
  ℕ, Bool, true, false, not, ◌&&◌, Option, none, some, List, [], ◌∷◌, length, ltb, ◌==◌,
  if◌then◌else◌,
}
use scovant_core.Prelude.Json.{Json, null, object, no_more, is_object}
use scovant_core.Rules.Conform.{Hints, conform_mapping}
use scovant_core.Rules.Evidence.{page_evidence, domain_evidence}

-- the first part of a key, "page" or "domain"
pub data Kind : Type 0 where
  page domain : Kind

abbrev pub same_kind : Kind → Kind → Bool
same_kind page page = true
same_kind domain domain = true
same_kind _ _ = false

abbrev pub hints_of_kind : Kind → Hints
hints_of_kind page = page_evidence
hints_of_kind domain = domain_evidence

-- `build` of the two callers
unfoldable pub build : Kind → Json → Json
unfolding conform_mapping
build k (object fs) = object (conform_mapping fs (hints_of_kind k))
build k v = v

-- a key with its value, the object and its conformed copy
pub record Entry : Type 0 where
  pub kind : Kind
  pub address : ℕ
  pub object_kept : ℕ
  pub result : Json

abbrev pub cache_size : ℕ
cache_size = 8

abbrev pub has_key : Kind → ℕ → Entry → Bool
has_key k a e = same_kind e.kind k && e.address == a

-- `_cache.get(key)`
abbrev pub find_entry : Kind → ℕ → List Entry → Option Entry
find_entry k a [] = none
find_entry k a (e ∷ es) = let rest = find_entry k a es in if has_key k a e then some e else rest

-- `_cache[key] = …` on a dictionary in the order of insertion
abbrev pub put_entry : Entry → List Entry → List Entry
put_entry e [] = e ∷ []
put_entry e (x ∷ xs) =
    let rest = put_entry e xs in if has_key e.kind e.address x then e ∷ xs else x ∷ rest

-- the loop `while len(_cache) > _CACHE_SIZE`
abbrev pub trim : List Entry → List Entry
trim [] = []
trim (e ∷ es) = let rest = trim es in if ltb cache_size (length (e ∷ es)) then rest else e ∷ es

module _ (address : ℕ → ℕ) (value : ℕ → Json) where
  -- `hit[1]` if `hit[0] is obj`
  abbrev pub kept_for : ℕ → Option Entry → Option Json
  kept_for obj none = none
  kept_for obj (some e) = if e.object_kept == obj then some e.result else none

  -- the first locked region
  unfoldable pub look : Kind → ℕ → List Entry → Option Json
  look k obj cache = kept_for obj (find_entry k (address obj) cache)

  -- the second one
  unfoldable pub store : Kind → ℕ → Json → List Entry → List Entry
  store k obj result cache = trim (
      put_entry (record { kind = k; address = address obj; object_kept = obj; result = result })
        cache)

  abbrev pub or_build : Kind → ℕ → List Entry → Option Json → Json × List Entry
  or_build k obj later (some result) = (result, later)
  or_build k obj later none = (build k (value obj), store k obj (build k (value obj)) later)

  -- `_remembered`, from the cache at the first region and at the second one
  unfoldable pub remembered : Kind → ℕ → List Entry → List Entry → Json × List Entry
  unfolding look store build
  remembered k obj cache later = or_build k obj later (look k obj cache)

  -- `conform_page`
  unfoldable pub conform_page : ℕ → List Entry → List Entry → Json × List Entry
  unfolding remembered
  conform_page obj cache later =
      if not (is_object (value obj))
      then (object no_more, later)
      else remembered page obj cache later

  -- `conform_domain`
  unfoldable pub conform_domain : ℕ → List Entry → List Entry → Json × List Entry
  unfolding remembered
  conform_domain obj cache later =
      if not (is_object (value obj)) then (null, later) else remembered domain obj cache later

-- what the two give without a cache
abbrev pub conformed_page : Json → Json
conformed_page v = if not (is_object v) then object no_more else build page v

abbrev pub conformed_domain : Json → Json
conformed_domain v = if not (is_object v) then null else build domain v
