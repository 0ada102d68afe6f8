-- ===== src/R2/Score/Monotone/Merge.antt =====
-- The merge of root causes keeps its shape and lowers no value when rows do better.
use scovant_core.Prelude.{
  String, ◌≡◌, refl, sym, ◌∙◌, ap, List, [], ◌∷◌, inl, inr, Both, Both-append, Bool-cases, str_eq,
  insert,
}
use scovant_core.Prelude.Float.{Float, IsMonotone, min_F}
use scovant_core.Prelude.Sort.{sort_by, sort_by-Both}
use scovant_core.R2.Policy.{ScoringPolicy}
use scovant_core.R2.Score.Rows.{Row}
use scovant_core.R2.Score.Value.{value_mono, value_bounds}
use scovant_core.R2.Score.Merge.{
  Cluster, Merged, value, heavier, belongs, is_clustered, add_member, clusters_from, add_ids,
  add_id, worst, merge_members, merge_clusters, merge_rows,
}
use scovant_core.R2.Score.Monotone.Defs.{
  RowLe, flags_of, ClusterLe, Below, ValueLe, MergedLe, min_F-Below,
}

belongs_alike : (r s : Row) (c d : Cluster) → RowLe r s → ClusterLe c d → belongs r c ≡ belongs s d
belongs_alike r s c d h k = cc (h.same_spec, h.outcome.same_key, k.group, k.scope, k.evidence_key)

add_member-Both :
    (r s : Row) (cs ds : List Cluster)
    → RowLe r s
    → Both ClusterLe cs ds
    → Both ClusterLe (add_member r cs) (add_member s ds)
unfolding add_member
add_member-Both r s [] [] h k = (
  record {
    group = ap (λ x. x.root_cause_group) h.same_spec;
    scope = ap (λ x. x.scope) h.same_spec;
    evidence_key = h.outcome.same_key;
    members = (h, tt);
  },
  tt,
)
add_member-Both r s [] (d ∷ ds) h k = absurd k
add_member-Both r s (c ∷ cs) [] h k = absurd k
add_member-Both r s (c ∷ cs) (d ∷ ds) h k = elim (Bool-cases (belongs r c)) [
  | inl e ↦
      rw (e, (sym (belongs_alike r s c d h k.0) ∙ e))
        (
          record {
            group = k.0.group;
            scope = k.0.scope;
            evidence_key = k.0.evidence_key;
            members = Both-append RowLe c.members d.members (r ∷ []) (s ∷ []) k.0.members (h, tt);
          },
          k.1,
        )
  | inr e ↦ rw (e, (sym (belongs_alike r s c d h k.0) ∙ e)) (k.0, add_member-Both r s cs ds h k.1)
]

clustered_alike : (r s : Row) → RowLe r s → is_clustered r ≡ is_clustered s
clustered_alike r s h =
    cc (h.same_spec, h.outcome.same_key, (flags_of _ _ h.outcome.state).measured)

clusters_from-Both :
    (cs ds : List Cluster) (rows rows' : List Row)
    → Both ClusterLe cs ds
    → Both RowLe rows rows'
    → Both ClusterLe (clusters_from cs rows) (clusters_from ds rows')
unfolding clusters_from
clusters_from-Both cs ds [] [] k h = k
clusters_from-Both cs ds [] (s ∷ ss) k h = absurd h
clusters_from-Both cs ds (r ∷ rs) [] k h = absurd h
clusters_from-Both cs ds (r ∷ rs) (s ∷ ss) k h = elim (Bool-cases (is_clustered r)) [
  | inl e ↦
      rw (e, (sym (clustered_alike r s h.0) ∙ e))
        (clusters_from-Both (add_member r cs) (add_member s ds) rs ss
          (add_member-Both r s cs ds h.0 k) h.1)
  | inr e ↦ rw (e, (sym (clustered_alike r s h.0) ∙ e)) (clusters_from-Both cs ds rs ss k h.1)
]

add_ids_alike :
    (ids : List String) (rs ss : List Row) → Both RowLe rs ss → add_ids ids rs ≡ add_ids ids ss
add_ids_alike ids [] [] h = refl
add_ids_alike ids [] (s ∷ ss) h = absurd h
add_ids_alike ids (r ∷ rs) [] h = absurd h
add_ids_alike ids (r ∷ rs) (s ∷ ss) h =
    rw (ap (λ x. x.rule_id) h.0.same_spec) (add_ids_alike (add_id ids s.spec.rule_id) rs ss h.1)

heavier_alike :
    {F : Type 0} (policy : ScoringPolicy F) (a b c d : Row)
    → RowLe a b
    → RowLe c d
    → heavier policy a c ≡ heavier policy b d
unfolding heavier
heavier_alike policy a b c d h k = cc (h.same_spec, k.same_spec)

insert-Both :
    {F : Type 0} ⦃fl : Float F⦄ (k l : String) (v w : F) (m n : List (String × F))
    → k ≡ l
    → Below v w
    → Both ValueLe m n
    → Both ValueLe (insert k v m) (insert l w n)
insert-Both k l v w [] [] e b h = (record { key = e; value = b }, tt)
insert-Both k l v w [] (q ∷ n) e b h = absurd h
insert-Both k l v w (p ∷ m) [] e b h = absurd h
insert-Both k l v w ((i, x) ∷ m) ((j, y) ∷ n) e b h =
    let same : str_eq i k ≡ str_eq j l = cc (h.0.key, e) in
    elim (Bool-cases (str_eq i k)) [
      | inl t ↦ rw (t, (sym same ∙ t)) (record { key = h.0.key; value = b }, h.1)
      | inr t ↦ rw (t, (sym same ∙ t)) (h.0, insert-Both k l v w m n e b h.1)
    ]

module _ {F : Type 0} ⦃fl : Float F⦄ (laws : IsMonotone F) where
  pub value-Below :
      (r s : Row) → RowLe r s → Below {F = F} (value r.spec r.outcome) (value s.spec s.outcome)
  value-Below r s h = rw (← h.same_spec) (
    (value_bounds laws r.spec r.outcome h.accepted).0,
    value_mono laws r.spec r.outcome s.outcome h.outcome,
  )

  worst-Below :
      (v w : F) (rs ss : List Row) → Below v w → Both RowLe rs ss → Below (worst v rs) (worst w ss)
  unfolding worst
  worst-Below v w [] [] b h = b
  worst-Below v w [] (s ∷ ss) b h = absurd h
  worst-Below v w (r ∷ rs) [] b h = absurd h
  worst-Below v w (r ∷ rs) (s ∷ ss) b h =
      worst-Below (min_F v (value r.spec r.outcome)) (min_F w (value s.spec s.outcome)) rs ss
        (min_F-Below laws v _ w _ b (value-Below r s h.0)) h.1

  merge_members-MergedLe :
      (m n : Merged F) (rs ss : List Row)
      → MergedLe m n
      → Both RowLe rs ss
      → MergedLe (merge_members m rs) (merge_members n ss)
  unfolding merge_members
  merge_members-MergedLe m n [] [] k h = k
  merge_members-MergedLe m n [] (s ∷ ss) k h = absurd h
  merge_members-MergedLe m n (r ∷ rs) [] k h = absurd h
  merge_members-MergedLe m n (r ∷ rs) (s ∷ ss) k h = record {
    values =
        insert-Both _ _ _ _ m.values n.values (ap (λ x. x.rule_id) h.0.same_spec)
          (worst-Below _ _ rs ss (value-Below r s h.0) h.1) k.values;
    deduped = ap (λ ids. add_ids ids rs) k.deduped ∙ add_ids_alike n.deduped rs ss h.1;
  }

  module _ (policy : ScoringPolicy F) where
    merge_clusters-MergedLe :
        (m n : Merged F) (cs ds : List Cluster)
        → MergedLe m n
        → Both ClusterLe cs ds
        → MergedLe (merge_clusters policy m cs) (merge_clusters policy n ds)
    unfolding merge_clusters
    merge_clusters-MergedLe m n [] [] k h = k
    merge_clusters-MergedLe m n [] (d ∷ ds) k h = absurd h
    merge_clusters-MergedLe m n (c ∷ cs) [] k h = absurd h
    merge_clusters-MergedLe m n (c ∷ cs) (d ∷ ds) k h =
        merge_clusters-MergedLe (merge_members m (sort_by (heavier policy) c.members))
          (merge_members n (sort_by (heavier policy) d.members)) cs ds
          (merge_members-MergedLe m n _ _ k (
            sort_by-Both (heavier policy) RowLe (heavier_alike policy) c.members d.members
              h.0.members))
          h.1

    pub merge_rows-MergedLe :
        (rows rows' : List Row)
        → Both RowLe rows rows'
        → MergedLe (merge_rows policy rows) (merge_rows policy rows')
    unfolding merge_rows
    merge_rows-MergedLe rows rows' h =
        merge_clusters-MergedLe _ _ _ _ (record { values = tt; deduped = refl })
          (clusters_from-Both [] [] rows rows' tt h)
