-- ===== src/R2/Score/Monotone/Defs.antt =====
-- The relations between two runs, where the second is at least as good: rows, values, clusters.
use scovant_core.Prelude.{String, ◌≡◌, true, inl, inr, Both, Bool-cases, ok, arith}
use scovant_core.Prelude.Float.{Float, IsMonotone, ◌≼◌, min_F}
use scovant_core.R2.Outcome.{OutcomeState, is_measured, is_na, is_error, is_fail, pages_consistent}
use scovant_core.R2.Score.Rows.{Row}
use scovant_core.R2.Score.Value.{StateLe, Improves}
use scovant_core.R2.Score.Merge.{Cluster, Merged}

pub record RowLe (r s : Row) : Type 0 where
  pub same_spec : r.spec ≡ s.spec
  pub outcome : Improves r.outcome s.outcome
  pub accepted : pages_consistent r.outcome ≡ ok tt

-- What the stages ask of a state.
pub record SameFlags (s t : OutcomeState) : Type 0 where
  pub measured : is_measured s ≡ is_measured t
  pub na : is_na s ≡ is_na t
  pub error : is_error s ≡ is_error t
  pub fail : is_fail t ≡ true → is_fail s ≡ true

pub flags_of : (s t : OutcomeState) → StateLe s t → SameFlags s t
flags_of OutcomeState.fail OutcomeState.fail h = ground arith
flags_of OutcomeState.fail OutcomeState.warn h = ground arith
flags_of OutcomeState.fail OutcomeState.pass h = ground arith
flags_of OutcomeState.warn OutcomeState.warn h = ground arith
flags_of OutcomeState.warn OutcomeState.pass h = ground arith
flags_of OutcomeState.pass OutcomeState.pass h = ground arith
flags_of OutcomeState.na OutcomeState.na h = ground arith
flags_of OutcomeState.not_measured OutcomeState.not_measured h = ground arith
flags_of OutcomeState.error OutcomeState.error h = ground arith
flags_of OutcomeState.blocked_by_policy OutcomeState.blocked_by_policy h = ground arith
flags_of OutcomeState.unknown OutcomeState.unknown h = ground arith
flags_of _ _ h = absurd h

pub record ClusterLe (c d : Cluster) : Type 0 where
  pub group : c.group ≡ d.group
  pub scope : c.scope ≡ d.scope
  pub evidence_key : c.evidence_key ≡ d.evidence_key
  pub members : Both RowLe c.members d.members

module _ {F : Type 0} ⦃fl : Float F⦄ where
  -- from 0 up, and no higher
  abbrev pub Below : F → F → Type 0
  Below x y = (fl.of_ℕ 0 ≼ x) × (x ≼ y)

  pub record ValueLe (p q : String × F) : Type 0 where
    pub key : p.0 ≡ q.0
    pub value : Below p.1 q.1

  pub record MergedLe (m n : Merged F) : Type 0 where
    pub values : Both ValueLe m.values n.values
    pub deduped : m.deduped ≡ n.deduped

  module _ (laws : IsMonotone F) where
    pub min_F-Below : (a b a' b' : F) → Below a a' → Below b b' → Below (min_F a b) (min_F a' b')
    min_F-Below a b a' b' p q = elim (Bool-cases (fl.lt b a)) [
      | inl e ↦ elim (Bool-cases (fl.lt b' a')) [
        | inl e' ↦ rw (e, e') q
        | inr e' ↦ rw (e, e') (q.0, laws.le_trans b a a' (laws.le_of_lt b a e) p.1)
      ]
      | inr e ↦ elim (Bool-cases (fl.lt b' a')) [
        | inl e' ↦ rw (e, e') (p.0, laws.le_trans a b b' e q.1)
        | inr e' ↦ rw (e, e') p
      ]
    ]
