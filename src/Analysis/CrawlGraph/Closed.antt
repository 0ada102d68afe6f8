-- ===== src/Analysis/CrawlGraph/Closed.antt =====
-- The search as a whole: what it leaves are the lengths of the shortest walks.
use mathlib.Core.Path.{subst}
use scovant_core.Prelude.{
  ℕ, String, suc, ◌≤◌, ◌≡◌, ◌⊎◌, inl, inr, some, List, [], ◌∷◌, lookup, All, In, arith,
}
use scovant_core.Analysis.CrawlGraph.{Links, links_of, visit, search_from}
use scovant_core.Analysis.CrawlGraph.Walks.{Walk, here, hop, Depths, Layers, Layers-next}
use scovant_core.Analysis.CrawlGraph.Visit.{IsLevel, visit-Visits}

module _ (adjacency : Links) (root : String) where
  -- every neighbour of a page of depth `d` has a depth, of `d + 1` at most
  abbrev pub Near : Depths → String → ℕ → Type 0
  Near D u d =
      (v : String) → In v (links_of adjacency u) → (e : ℕ) × (lookup v D ≡ some e) × (e ≤ suc d)

  pub record IsSearching (c : ℕ) (D : Depths) (Q : List String) : Type 0 where
    pub level : IsLevel adjacency root c (record { depth = D; queue = Q })
    pub rooted : lookup root D ≡ some 0
    pub closed : (u : String) (d : ℕ) → lookup u D ≡ some d → In u Q ⊎ Near D u d

  pub record IsDone (D : Depths) : Type 0 where
    pub sound : (u : String) (d : ℕ) → lookup u D ≡ some d → Walk adjacency root d u
    pub rooted : lookup root D ≡ some 0
    pub closed : (u : String) (d : ℕ) → lookup u D ≡ some d → Near D u d

  one_depth :
      (D : Depths) (u : String) {d e : ℕ} → lookup u D ≡ some d → lookup u D ≡ some e → d ≡ e
  one_depth D u p q = cc

  -- the first page of the queue is read
  pub next-IsSearching :
      (c : ℕ) (D : Depths) (u : String) (Q : List String)
      → lookup u D ≡ some c
      → Layers D c Q
      → IsSearching c D (u ∷ Q)
      → let t = visit (suc c) (links_of adjacency u) (record { depth = D; queue = Q }) in
        IsSearching c t.depth t.queue
  next-IsSearching c D u Q q layers s =
      let popped : IsLevel adjacency root c (record { depth = D; queue = Q }) = record {
        sound = s.level.sound;
        bound = s.level.bound;
        layers = layers;
      } in
      let v =
        visit-Visits adjacency root c (links_of adjacency u) (record { depth = D; queue = Q })
          (λ w h. hop (s.level.sound u c q) h) popped in
      record {
        level = v.level;
        rooted = v.grows root 0 s.rooted;
        closed = λ w d p. elim (v.fresh w d p) [
          | inl old ↦ elim (s.closed w d old) [
            | inl queued ↦ elim queued [
              | inl e ↦
                  let same : c ≡ d = one_depth D w (subst (λ x. lookup x D ≡ some c) e q) old in
                  inr (
                    let t =
                      visit (suc c) (links_of adjacency u) (record { depth = D; queue = Q }) in
                    let near : Near t.depth u c = v.reached in
                    subst (λ x. Near t.depth x d) e (subst (λ n. Near t.depth u n) same near))
              | inr later ↦ inl (v.stays w later)
            ]
            | inr near ↦ inr (λ x h. let (e, r, le) = near x h in (e, v.grows x e r, le))
          ]
          | inr queued ↦ inl queued
        ];
      }

  -- no page of depth `c` is left in the queue
  pub deeper :
      (c : ℕ) (D : Depths) (Q : List String)
      → All (λ v. lookup v D ≡ some (suc c)) Q
      → IsSearching c D Q
      → IsSearching (suc c) D Q
  deeper c D Q all s = record {
    level = record {
      sound = s.level.sound;
      bound = λ u d q. omega (arith, s.level.bound u d q);
      layers = Layers-next D c Q all;
    };
    rooted = s.rooted;
    closed = s.closed;
  }

  pub search_from-IsDone :
      (fuel c : ℕ) (D : Depths) (Q : List String) {E : Depths}
      → IsSearching c D Q
      → search_from adjacency fuel D Q ≡ some E
      → IsDone E
  unfolding search_from
  search_from-IsDone fuel c D [] {E} s h =
      let same : D ≡ E = cc in
      let done : IsDone D = record {
        sound = s.level.sound;
        rooted = s.rooted;
        closed = λ u d q. elim (s.closed u d q) [ inl queued ↦ absurd queued | inr near ↦ near ];
      } in
      subst IsDone same done
  search_from-IsDone ℕ.zero c D (u ∷ Q) s h = absurd cc
  search_from-IsDone (ℕ.suc fuel) c D (u ∷ Q) s h = elim s.level.layers [
    | inl (q, layers) ↦
        search_from-IsDone fuel c _ _ (next-IsSearching c D u Q q layers s) (rw q at h)
    | inr all ↦
        let t = deeper c D (u ∷ Q) all s in
        search_from-IsDone fuel (suc c) _ _
          (next-IsSearching (suc c) D u Q all.0 (Layers-next D c Q all.1) t) (rw (all.0) at h)
  ]

  -- a walk is as long as the depth of its end, or longer
  pub Walk-bound :
      {D : Depths} {n : ℕ} {u : String}
      → IsDone D
      → Walk adjacency root n u
      → (d : ℕ) × (lookup u D ≡ some d) × (d ≤ n)
  Walk-bound s here = (0, s.rooted, omega arith)
  Walk-bound s (hop {n} {u} {v} w h) =
      let (d, q, le) = Walk-bound s w in let (e, r, le') = s.closed u d q v h in (e, r, omega arith)
