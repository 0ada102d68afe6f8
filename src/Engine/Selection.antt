-- ===== src/Engine/Selection.antt =====
-- What `validate_selectors` accepts.
use scovant_core.Prelude.{
  String, ◌≡◌, refl, inl, inr, Bool, true, false, not, ◌&&◌, ◌||◌, List, [], ◌∷◌, ◌++◌, All, any,
  Bool-cases, str_eq, str_eq_sym, or_false, contains, upper, lower, ok, raised,
}
use scovant_core.Models.{category_value}
use scovant_core.Context.{ScanOptions}
use scovant_core.Checks.Base.{CoreCheck}
use scovant_core.Engine.{matches_token, ids_of, categories_of, validate_tokens, validate_selectors}

-- some check has the token for its id or category
abbrev pub Matched : List CoreCheck → String → Type 0
Matched checks token = any (λ c. matches_token c token) checks ≡ true

or_of : (a b : Bool) → (not a && not b) ≡ false → (a || b) ≡ true
or_of true b h = refl
or_of false true h = refl
or_of false false h = cc

flipped : (s t : String) → str_eq t s ≡ false → str_eq s t ≡ false
flipped s t h = str_eq_sym t s h

rest_or : (a b c d : Bool) → a ≡ false → c ≡ false → ((a || b) || (c || d)) ≡ true → (b || d) ≡ true
rest_or a b c d p q h = rw (p, q) at h

token-Matched :
    (checks : List CoreCheck) (token : String)
    → (contains (ids_of checks) (upper token) || contains (categories_of checks) (lower token))
      ≡ true
    → Matched checks token
token-Matched [] token h = cc
token-Matched (c ∷ cs) token h = elim (Bool-cases (matches_token c token)) [
  | inl m ↦ rw m refl
  | inr m ↦
      let (i, k) = or_false _ _ m in
      rw m (
        token-Matched cs token
          (rest_or _ _ _ _ (flipped c.id _ i) (flipped (category_value c.category) _ k) h))
]

validate_tokens-Matched :
    (checks : List CoreCheck) (tokens : List String)
    → validate_tokens checks tokens ≡ ok tt
    → All (Matched checks) tokens
unfolding validate_tokens
validate_tokens-Matched checks [] h = tt
validate_tokens-Matched checks (token ∷ tokens) h =
    let (b, h') =
      raised
        (not (contains (ids_of checks) (upper token))
          && not (contains (categories_of checks) (lower token)))
        _ h in
    (token-Matched checks token (or_of _ _ b), validate_tokens-Matched checks tokens h')

-- Options that `validate_selectors` accepts name no unknown check: each token of `include` and
-- `exclude` matches, as the selection matches it, the id or the category of a registered check.
pub validate_selectors-Matched :
    (checks : List CoreCheck) (o : ScanOptions)
    → validate_selectors checks o ≡ ok tt
    → All (Matched checks) (o.include ++ o.exclude)
unfolding validate_selectors
validate_selectors-Matched checks o h = validate_tokens-Matched checks (o.include ++ o.exclude) h
