-- ===== src/R2/Policy.antt =====
-- r2/policy.py: the numbers of the rating.
use scovant_core.Prelude.{
  ℕ, String, Bool, true, false, not, ◌&&◌, Option, none, some, List, [], ◌∷◌, map, ltb, is_none,
  str_eq, contains, repeats, if◌then◌else◌, Result, ◌>>◌, raise_if,
}
use scovant_core.Prelude.Float.{Float, zero_F}
use scovant_core.Models.{Severity}
use scovant_core.R2.Outcome.{R2Category}

pub data GateEffect : Type 0 where
  badge_block cap : GateEffect

abbrev pub is_cap : GateEffect → Bool
is_cap GateEffect.cap = true
is_cap GateEffect.badge_block = false

abbrev pub is_badge_block : GateEffect → Bool
is_badge_block GateEffect.cap = false
is_badge_block GateEffect.badge_block = true

pub record Gate : Type 0 where
  pub root_cause_group : String
  pub effect : GateEffect
  pub cap : Option ℕ

pub data PolicyError : Type 0 where
  cap_out_of_range badge_block_with_cap negative_prior two_gates_of_a_group : PolicyError

cap_in_range : Option ℕ → Bool
cap_in_range none = false
cap_in_range (some n) = not (ltb 100 n)

-- `Gate._cap_matches_effect`
unfoldable pub cap_matches_effect : Gate → Result PolicyError (Unit {0})
unfolding cap_in_range
cap_matches_effect g = do
  raise_if (is_cap g.effect && not (cap_in_range g.cap)) cap_out_of_range
  raise_if (is_badge_block g.effect && not (is_none g.cap)) badge_block_with_cap

-- The two dictionaries that have to cover every category and every severity are functions, so
-- the checks that they do have nothing to test. A severity weighs a natural number.
pub record ScoringPolicy (F : Type 0) : Type 0 where
  pub name : String
  pub category_weights : R2Category → F
  pub severity_weights : Severity → ℕ
  -- `none`: the category applies to every profile
  pub category_profiles : R2Category → Option (List String)
  pub evidence_min_coverage : F
  pub canonical_min_coverage : F
  pub grades : List (ℕ × String)
  pub badges : List (ℕ × String)
  pub gates : List Gate
  pub category_prior_weight : F

module _ {F : Type 0} ⦃fl : Float F⦄ where
  -- `ScoringPolicy._complete`, on a finite prior
  unfoldable pub complete : ScoringPolicy F → Result PolicyError (Unit {0})
  complete p = do
    raise_if (fl.lt p.category_prior_weight zero_F) negative_prior
    raise_if (repeats (map (λ g. g.root_cause_group) p.gates)) two_gates_of_a_group

module _ {F : Type 0} where
  unfoldable pub category_applies : ScoringPolicy F → R2Category → String → Bool
  category_applies p category profile = elim (p.category_profiles category) [
    | none ↦ true
    | some allowed ↦ contains allowed profile
  ]

-- `next((g for g in gates if g.root_cause_group == group), None)`
unfoldable pub find_gate : String → List Gate → Option Gate
find_gate group [] = none
find_gate group (g ∷ gs) = if str_eq g.root_cause_group group then some g else find_gate group gs

module _ {F : Type 0} where
  unfoldable pub gate_for : ScoringPolicy F → String → Option Gate
  unfolding find_gate
  gate_for p group = find_gate group p.gates

abbrev public_category_weight : {F : Type 0} ⦃fl : Float F⦄ → R2Category → F
public_category_weight ⦃fl⦄ R2Category.discoverability = fl.lit 17 2
public_category_weight ⦃fl⦄ R2Category.structured = fl.lit 18 2
public_category_weight ⦃fl⦄ R2Category.consistency = fl.lit 15 2
public_category_weight ⦃fl⦄ R2Category.actionability = fl.lit 12 2
public_category_weight ⦃fl⦄ R2Category.trust = fl.lit 8 2
public_category_weight ⦃fl⦄ R2Category.ucp = fl.lit 12 2
public_category_weight ⦃fl⦄ R2Category.citability = fl.lit 18 2

abbrev public_severity_weight : Severity → ℕ
public_severity_weight Severity.critical = 40
public_severity_weight Severity.high = 25
public_severity_weight Severity.medium = 14
public_severity_weight Severity.low = 6
public_severity_weight Severity.info = 2

abbrev public_profiles : R2Category → Option (List String)
public_profiles R2Category.ucp = some ("booking" ∷ "commerce" ∷ "restaurant" ∷ "saas" ∷ [])
public_profiles R2Category.citability =
    some ("blog" ∷ "docs" ∷ "documentation" ∷ "media" ∷ "news" ∷ "other" ∷ "portfolio" ∷ [])
public_profiles _ = none

abbrev pub public_policy : {F : Type 0} ⦃fl : Float F⦄ → ScoringPolicy F
public_policy ⦃fl⦄ = record {
  name = "technical-public";
  category_weights = public_category_weight;
  severity_weights = public_severity_weight;
  category_profiles = public_profiles;
  evidence_min_coverage = fl.lit 60 2;
  canonical_min_coverage = fl.lit 85 2;
  grades = (90, "A") ∷ (80, "B") ∷ (60, "C") ∷ (0, "D") ∷ [];
  badges = (80, "agent_ready") ∷ (60, "agent_compatible") ∷ [];
  gates =
      record {
        root_cause_group = "agent_access_blocked";
        effect = GateEffect.badge_block;
        cap = none;
      }
      ∷ [];
  category_prior_weight = fl.of_ℕ 14;
}
