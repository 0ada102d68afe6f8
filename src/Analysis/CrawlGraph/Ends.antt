-- ===== src/Analysis/CrawlGraph/Ends.antt =====
-- The search ends within its fuel: every turn takes a page from the queue, and a page enters it once.
use mathlib.Core.Path.{subst}
use scovant_core.Prelude.{
  keys, ℕ, String, suc, ◌+◌, ◌≤◌, ◌≡◌, refl, sym, ap, inl, inr, true, none, some, List, [], ◌∷◌,
  ◌++◌, is_none, length, length-append, keep, if◌then◌else◌, Bool-cases, Option-cases, lookup,
  insert, lookup-insert, str_eq, contains, eq_iff, eq_refl, In, arith,
}
use scovant_core.Analysis.CrawlGraph.{Links, links_of, Search, visit, search_from, depths}
use scovant_core.Analysis.CrawlGraph.Walks.{Walk, here, Depths, Layers-next, insert_new}
use scovant_core.Analysis.CrawlGraph.Closed.{
  IsSearching, IsDone, next-IsSearching, deeper, search_from-IsDone,
}

unvisited : List String → Depths → ℕ
unvisited nodes D = length (keep (λ u. is_none (lookup u D)) nodes)

insert-is_none :
    (D : Depths) (v : String) (n : ℕ) (u : String)
    → is_none (lookup u (insert v n D)) ≡ true
    → is_none (lookup u D) ≡ true
insert-is_none D v n u h = elim (Bool-cases (str_eq v u)) [
  | inl e ↦ let gone = rw (lookup-insert v u n D, e) at h in absurd cc
  | inr e ↦ rw (lookup-insert v u n D, e) at h
]

unvisited_cons :
    (u : String) (nodes : List String) (D : Depths)
    → unvisited (u ∷ nodes) D
      ≡ (if is_none (lookup u D) then suc (unvisited nodes D) else unvisited nodes D)
unfolding unvisited
unvisited_cons u nodes D = elim (Bool-cases (is_none (lookup u D))) [
  | inl e ↦ rw e refl
  | inr e ↦ rw e refl
]

unvisited_le :
    (nodes : List String) (D : Depths) (v : String) (n : ℕ)
    → unvisited nodes (insert v n D) ≤ unvisited nodes D
unfolding unvisited
unvisited_le [] D v n = omega arith
unvisited_le (u ∷ nodes) D v n = elim (Bool-cases (is_none (lookup u (insert v n D)))) [
  | inl e ↦ rw (e, insert-is_none D v n u e) (omega (arith, unvisited_le nodes D v n))
  | inr e ↦ rw e (elim (Bool-cases (is_none (lookup u D))) [
    | inl f ↦ rw f (omega (arith, unvisited_le nodes D v n))
    | inr f ↦ rw f (unvisited_le nodes D v n)
  ])
]

-- a page that gets a depth is unvisited no longer
unvisited-insert :
    (nodes : List String) (D : Depths) (v : String) (n : ℕ)
    → lookup v D ≡ none
    → In v nodes
    → suc (unvisited nodes (insert v n D)) ≤ unvisited nodes D
unfolding unvisited
unvisited-insert [] D v n new h = absurd h
unvisited-insert (u ∷ nodes) D v n new (inl e) =
    let before : lookup u D ≡ none = subst (λ x. lookup x D ≡ none) (sym e) new in
    let after : lookup u (insert v n D) ≡ some n =
      subst (λ x. lookup x (insert v n D) ≡ some n) (sym e) (insert_new D v n new) in
    rw (before, after) (omega (arith, unvisited_le nodes D v n))
unvisited-insert (u ∷ nodes) D v n new (inr h) =
    elim (Bool-cases (is_none (lookup u (insert v n D)))) [
      | inl e ↦ rw (e, insert-is_none D v n u e) (omega (arith, unvisited-insert nodes D v n new h))
      | inr e ↦ rw e (elim (Bool-cases (is_none (lookup u D))) [
        | inl f ↦ rw f (omega (arith, unvisited-insert nodes D v n new h))
        | inr f ↦ rw f (unvisited-insert nodes D v n new h)
      ])
    ]

module _ (nodes : List String) where
  abbrev measure : Search → ℕ
  measure s = length s.queue + unvisited nodes s.depth

  visit_measure :
      (n : ℕ) (vs : List String) (s : Search)
      → ((v : String) → In v vs → In v nodes)
      → measure (visit n vs s) ≤ measure s
  unfolding visit
  visit_measure n [] s h = omega arith
  visit_measure n (v ∷ vs) s h = elim (Option-cases (lookup v s.depth)) [
    | inl new ↦
        let t : Search = record { depth = insert v n s.depth; queue = s.queue ++ v ∷ [] } in
        let rest : length (visit n vs t).queue + unvisited nodes (visit n vs t).depth
            ≤ length t.queue + unvisited nodes t.depth =
          visit_measure n vs t (λ w q. h w (inr q)) in
        let pushed : (if is_none (lookup v s.depth) then t else s) ≡ t = rw new refl in
        subst (λ x. measure (visit n vs x) ≤ measure s) (sym pushed)
          (omega (
            arith,
            rest,
            length-append s.queue (v ∷ []),
            unvisited-insert nodes s.depth v n new (h v (inl refl)),
          ))
    | inr (d, old) ↦
        let t : Search = record { depth = insert v n s.depth; queue = s.queue ++ v ∷ [] } in
        let skipped : (if is_none (lookup v s.depth) then t else s) ≡ s = rw old refl in
        subst (λ x. measure (visit n vs x) ≤ measure s) (sym skipped)
          (visit_measure n vs s (λ w q. h w (inr q)))
  ]

module _ (adjacency : Links) (root : String)
    (known : (u v : String) → In v (links_of adjacency u) → In v (keys adjacency)) where
  search_from_ends :
      (fuel c : ℕ) (D : Depths) (Q : List String)
      → IsSearching adjacency root c D Q
      → length Q + unvisited (keys adjacency) D ≤ fuel
      → (E : Depths) × (search_from adjacency fuel D Q ≡ some E)
  unfolding search_from
  search_from_ends fuel c D [] s h = (D, refl)
  search_from_ends ℕ.zero c D (u ∷ Q) s h = absurd (omega arith)
  search_from_ends (ℕ.suc fuel) c D (u ∷ Q) s h = elim s.level.layers [
    | inl (q, layers) ↦
        let s0 : Search = record { depth = D; queue = Q } in
        let less =
          visit_measure (keys adjacency) (suc c) (links_of adjacency u) s0 (λ v. known u v) in
        rw q (
          search_from_ends fuel c _ _ (next-IsSearching adjacency root c D u Q q layers s)
            (omega (arith, less)))
    | inr all ↦
        let s0 : Search = record { depth = D; queue = Q } in
        let less =
          visit_measure (keys adjacency) (suc (suc c)) (links_of adjacency u) s0 (λ v. known u v) in
        let t = deeper adjacency root c D (u ∷ Q) all s in
        rw (all.0) (
          search_from_ends fuel (suc c) _ _
            (next-IsSearching adjacency root (suc c) D u Q all.0 (Layers-next D c Q all.1) t)
            (omega (arith, less)))
  ]

  keep_bound : (nodes : List String) (D : Depths) → unvisited nodes D ≤ length nodes
  unfolding unvisited
  keep_bound [] D = omega arith
  keep_bound (u ∷ nodes) D = elim (Bool-cases (is_none (lookup u D))) [
    | inl e ↦ rw e (omega (arith, keep_bound nodes D))
    | inr e ↦ rw e (omega (arith, keep_bound nodes D))
  ]

  length-keys : {V : Type 0} (m : List (String × V)) → length (keys m) ≡ length m
  length-keys [] = refl
  length-keys ((k, v) ∷ m) = ap suc (length-keys m)

  start_lookup : (u : String) (d : ℕ) → lookup u ((root, 0) ∷ []) ≡ some d → (root ≡ u) × (0 ≡ d)
  start_lookup u d h = elim (Bool-cases (str_eq root u)) [
    | inl e ↦ let zero_hops : 0 ≡ d = cc (rw e at h) in ((eq_iff root u).0 e, zero_hops)
    | inr e ↦ let q = rw e at h in absurd cc
  ]

  start_root : lookup {V = ℕ} root ((root, 0) ∷ []) ≡ some 0
  start_root = rw (eq_refl root) refl

  start-IsSearching : IsSearching adjacency root 0 ((root, 0) ∷ []) (root ∷ [])
  start-IsSearching = record {
    level = record {
      sound = λ u d h.
          let (e, z) = start_lookup u d h in
          subst (λ x. Walk adjacency root d x) e (subst (λ n. Walk adjacency root n root) z here);
      bound = λ u d h. omega (arith, (start_lookup u d h).1);
      layers = inl (start_root, tt);
    };
    rooted = start_root;
    closed = λ u d h. inl (inl (start_lookup u d h).0);
  }

  -- the search from a root among the pages: it ends, and leaves the lengths of the shortest walks
  pub depths-IsDone :
      contains (keys adjacency) root ≡ true
      → (D : Depths) × (depths adjacency root ≡ some D) × IsDone adjacency root D
  unfolding depths
  depths-IsDone c =
      let (D, q) =
        search_from_ends (suc (length adjacency)) 0 ((root, 0) ∷ []) (root ∷ []) start-IsSearching
          (omega (arith, keep_bound (keys adjacency) ((root, 0) ∷ []), length-keys adjacency)) in
      (
        D,
        rw c q,
        search_from-IsDone adjacency root (suc (length adjacency)) 0 _ _ start-IsSearching q,
      )
