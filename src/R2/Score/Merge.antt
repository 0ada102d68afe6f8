-- ===== src/R2/Score/Merge.antt =====
-- r2/score.py, the third stage: the value of an outcome, and one numeric effect per root cause.
use scovant_core.Prelude.{
  ℕ, String, Bool, true, false, not, ◌&&◌, ◌||◌, Option, some, List, [], ◌∷◌, ◌++◌, ltb, ◌==◌,
  if◌then◌else◌, str_eq, str_leb, contains, insert,
}
use scovant_core.Prelude.Sort.{sort_by}
use scovant_core.Prelude.Float.{Float, one_F, min_F}
use scovant_core.R2.Outcome.{Outcome, is_measured, state_value}
use scovant_core.R2.Policy.{ScoringPolicy}
use scovant_core.R2.Manifest.{RuleSpec, RuleScope, is_page, is_merged}
use scovant_core.R2.Score.Rows.{Row}

module _ {F : Type 0} ⦃fl : Float F⦄ where
  -- `1 - (pages_failed / pages_measured) * (1 - base)`
  unfoldable pub page_value : ℕ → ℕ → F → F
  page_value failed measured base =
      fl.sub one_F (fl.mul (fl.ratio failed measured) (fl.sub one_F base))

  -- With pages measured and none given as failed the code's `assert` would fail; the validator of
  -- `Outcome` lets no such outcome be.
  abbrev pub page_or_base : Option ℕ → Option ℕ → F → F
  page_or_base (some measured) (some failed) base =
      if measured == 0 then base else page_value failed measured base
  page_or_base _ _ base = base

  -- `_value`
  unfoldable pub value : RuleSpec → Outcome → F
  unfolding page_value
  value spec o =
      if is_page spec.scope
      then page_or_base o.pages_measured o.pages_failed (state_value o.state)
      else state_value o.state

abbrev pub same_scope : RuleScope → RuleScope → Bool
same_scope RuleScope.page RuleScope.page = true
same_scope RuleScope.domain RuleScope.domain = true
same_scope _ _ = false

-- An item of `clusters`; the key is (group, scope, evidence key).
pub record Cluster : Type 0 where
  pub group : String
  pub scope : RuleScope
  pub evidence_key : String
  pub members : List Row

abbrev pub is_clustered : Row → Bool
is_clustered r =
    is_merged r.spec && is_measured r.outcome.state && not (str_eq r.outcome.evidence_key "")

abbrev pub belongs : Row → Cluster → Bool
belongs r c =
    str_eq c.group r.spec.root_cause_group
    && same_scope c.scope r.spec.scope
    && str_eq c.evidence_key r.outcome.evidence_key

abbrev pub join : Cluster → Row → Cluster
join c r = record c { members = c.members ++ r ∷ [] }

abbrev pub new_cluster : Row → Cluster
new_cluster r = record {
  group = r.spec.root_cause_group;
  scope = r.spec.scope;
  evidence_key = r.outcome.evidence_key;
  members = r ∷ [];
}

-- `clusters.setdefault(key, []).append(row)`
unfoldable pub add_member : Row → List Cluster → List Cluster
add_member r [] = new_cluster r ∷ []
add_member r (c ∷ cs) = if belongs r c then join c r ∷ cs else c ∷ add_member r cs

unfoldable pub clusters_from : List Cluster → List Row → List Cluster
unfolding add_member
clusters_from cs [] = cs
clusters_from cs (r ∷ rows) = clusters_from (if is_clustered r then add_member r cs else cs) rows

-- `merged_value` and `deduped`
pub record Merged (F : Type 0) : Type 0 where
  pub values : List (String × F)
  pub deduped : List String

-- `set.add`
abbrev pub add_id : List String → String → List String
add_id ids s = if contains ids s then ids else ids ++ s ∷ []

abbrev pub add_ids : List String → List Row → List String
add_ids ids [] = ids
add_ids ids (r ∷ rs) = add_ids (add_id ids r.spec.rule_id) rs

module _ {F : Type 0} (policy : ScoringPolicy F) where
  unfoldable pub weight : RuleSpec → ℕ
  weight spec = policy.severity_weights spec.severity

  -- the order of `members.sort`, by (-weight, rule_id)
  unfoldable pub heavier : Row → Row → Bool
  unfolding weight
  heavier a b =
      ltb (weight b.spec) (weight a.spec)
      || weight a.spec == weight b.spec && str_leb a.spec.rule_id b.spec.rule_id

module _ {F : Type 0} ⦃fl : Float F⦄ where
  -- `min(_value(...) for ...)`, from the first value on
  unfoldable pub worst : F → List Row → F
  unfolding value
  worst v [] = v
  worst v (r ∷ rs) = worst (min_F v (value r.spec r.outcome)) rs

  -- one cluster, its members sorted
  unfoldable pub merge_members : Merged F → List Row → Merged F
  unfolding worst
  merge_members m [] = m
  merge_members m (r ∷ rs) = record {
    values = insert r.spec.rule_id (worst (value r.spec r.outcome) rs) m.values;
    deduped = add_ids m.deduped rs;
  }

  unfoldable pub merge_clusters : ScoringPolicy F → Merged F → List Cluster → Merged F
  unfolding merge_members sort_by heavier
  merge_clusters policy m [] = m
  merge_clusters policy m (c ∷ cs) =
      merge_clusters policy (merge_members m (sort_by (heavier policy) c.members)) cs

  unfoldable pub merge_rows : ScoringPolicy F → List Row → Merged F
  unfolding merge_clusters clusters_from
  merge_rows policy rows =
      merge_clusters policy (record { values = []; deduped = [] }) (clusters_from [] rows)
