-- ===== src/Security/Policy.antt =====
-- security/policy.py: the limits of a scan. The times, floats, are left to the deadline of `Client`.
use scovant_core.Prelude.{
  ℕ, ◌*◌, String, Bool, ◌&&◌, Option, none, some, List, [], ◌∷◌, contains, lookup, insert,
}

-- `DEFAULT_SIZE_LIMITS`
abbrev pub default_size_limits : List (String × ℕ)
default_size_limits =
    ("html", 5 * 1024 * 1024)
    ∷ ("robots", 1 * 1024 * 1024)
    ∷ ("sitemap_index", 5 * 1024 * 1024)
    ∷ ("sitemap", 10 * 1024 * 1024)
    ∷ ("json", 10 * 1024 * 1024)
    ∷ ("text", 1 * 1024 * 1024)
    ∷ []

pub record SecurityPolicy : Type 0 where
  pub allow_private_networks : Bool
  pub private_hosts : List String
  pub max_redirects : ℕ
  pub size_limits : List (String × ℕ)

-- `dict.update`
unfoldable pub merge_limits : List (String × ℕ) → List (String × ℕ) → List (String × ℕ)
merge_limits base [] = base
merge_limits base ((k, n) ∷ more) = merge_limits (insert k n base) more

-- `__post_init__`
unfoldable pub post_init : SecurityPolicy → SecurityPolicy
unfolding merge_limits
post_init p = record p { size_limits = merge_limits default_size_limits p.size_limits }

abbrev pub limit_or : Option ℕ → ℕ → ℕ
limit_or none n = n
limit_or (some m) n = m

-- `limit_for`, with its `KeyError` on limits without "text", which `__post_init__` rules out
unfoldable pub limit_for : SecurityPolicy → String → Option ℕ
limit_for p kind = elim (lookup kind p.size_limits) [
  | some n ↦ some n
  | none ↦ lookup "text" p.size_limits
]

-- the test of `_guard_hook`, `_precheck` and `_exempt`
abbrev pub is_exempt : SecurityPolicy → String → Bool
is_exempt p host = p.allow_private_networks && contains p.private_hosts host
