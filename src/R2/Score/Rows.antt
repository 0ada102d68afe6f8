-- ===== src/R2/Score/Rows.antt =====
-- r2/score.py, the first stage: the outcomes by rule, the checks of their page counts, and the
-- pairs of a counted rule and its outcome.
use scovant_core.Prelude.{
  ℕ, String, Bool, true, false, not, ◌&&◌, ◌||◌, Option, none, some, List, [], ◌∷◌, ◌==◌,
  if◌then◌else◌, is_none, is_some, is_empty, contains, lookup, insert, Result, ok, ◌>>=◌, ◌>>◌,
  raise_if,
}
use scovant_core.R2.Outcome.{Outcome, OutcomeState, is_measured, is_pass, plain}
use scovant_core.R2.Policy.{ScoringPolicy, category_applies}
use scovant_core.R2.Manifest
use scovant_core.R2.Manifest.{Manifest, RuleSpec, RuleScope, is_page, is_required, is_diagnostic}

pub data ScoreError : Type 0 where
  not_in_manifest : String → ScoreError
  two_outcomes : String → ScoreError
  domain_with_counts : String → ScoreError
  no_pages_measured : String → ScoreError
  counts_disagree : String → ScoreError
  zero_division : ScoreError

-- one turn of `rows`
pub record Row : Type 0 where
  pub spec : RuleSpec
  pub outcome : Outcome

-- the truth value of `pages_measured`
abbrev pub some_pages : Option ℕ → Bool
some_pages none = false
some_pages (some n) = not (n == 0)

-- `pages_failed == 0`
abbrev pub none_failed : Option ℕ → Bool
none_failed none = false
none_failed (some n) = n == 0

abbrev pub bool_ne : Bool → Bool → Bool
bool_ne true b = not b
bool_ne false b = b

-- `_check_counts`
unfoldable pub check_counts : RuleSpec → Outcome → Result ScoreError (Unit {0})
check_counts spec o =
    let paged = do
      raise_if (not (some_pages o.pages_measured)) (no_pages_measured spec.rule_id)
      raise_if (bool_ne (is_pass o.state) (none_failed o.pages_failed))
          (counts_disagree spec.rule_id)
    in if is_page spec.scope
      then (if is_measured o.state then paged else ok tt)
      else raise_if (is_some o.pages_measured) (domain_with_counts spec.rule_id)

-- the loop over `outcomes`, which fills `by_id`
unfoldable pub index_outcomes :
    Manifest → List Outcome → List (String × Outcome) → Result ScoreError (List (String × Outcome))
index_outcomes m [] by_id = ok by_id
index_outcomes m (o ∷ os) by_id = do
  raise_if (is_none (Manifest.get m o.rule_id)) (not_in_manifest o.rule_id)
  raise_if (is_some (lookup o.rule_id by_id)) (two_outcomes o.rule_id)
  index_outcomes m os (insert o.rule_id o by_id)

module _ {F : Type 0} (policy : ScoringPolicy F) (profile : String) where
  -- `applies`
  unfoldable pub applies : RuleSpec → Bool
  unfolding category_applies
  applies spec =
      category_applies policy spec.category profile
      && (is_empty spec.profiles || contains spec.profiles profile)

  -- the outcome that a counted rule goes on with
  unfoldable pub settle : RuleSpec → Option Outcome → Result ScoreError Outcome
  unfolding applies check_counts
  settle spec none = ok (
      if applies spec
      then plain spec.rule_id OutcomeState.unknown ""
      else plain spec.rule_id OutcomeState.na "")
  settle spec (some o) = do
    check_counts spec o
    ok (if applies spec then o else plain spec.rule_id OutcomeState.na "")

  -- the test of the `continue`
  abbrev pub is_counted : RuleSpec → Bool
  is_counted spec = is_required spec.maturity && not (is_diagnostic spec.score_effect)

  -- the loop over `manifest.specs`: `rows` and `unknown`
  unfoldable pub build_rows :
      List (String × Outcome) → List RuleSpec → Result ScoreError (List Row × List String)
  unfolding settle
  build_rows by_id [] = ok ([], [])
  build_rows by_id (spec ∷ specs) =
      let rest = build_rows by_id specs in
      let found = lookup spec.rule_id by_id in
      let counted = do
        o ← settle spec found
        r ← rest
        ok (
          record { spec = spec; outcome = o } ∷ r.0,
          (if is_none found then spec.rule_id ∷ r.1 else r.1),
        )
      in if is_counted spec then counted else rest
