-- ===== src/Analysis/CrawlGraph/Visit.antt =====
-- The loop over the neighbours of a page of depth `c`.
use mathlib.Core.Path.{subst}
use scovant_core.Prelude.{
  ℕ, String, suc, ◌≤◌, ◌≡◌, refl, ◌⊎◌, inl, inr, none, some, List, [], ◌∷◌, ◌++◌, Option-cases,
  lookup, insert, In, arith,
}
use scovant_core.Analysis.CrawlGraph.{Links, Search, visit}
use scovant_core.Analysis.CrawlGraph.Walks.{
  Walk, Layers, Extends, Layers-Extends, Layers-append, In-append, In-last, insert_new, insert_old,
  insert_back,
}

module _ (adjacency : Links) (root : String) (c : ℕ) where
  -- what holds of the depths and of the queue while a page of depth `c` is read
  pub record IsLevel (s : Search) : Type 0 where
    pub sound : (u : String) (d : ℕ) → lookup u s.depth ≡ some d → Walk adjacency root d u
    pub bound : (u : String) (d : ℕ) → lookup u s.depth ≡ some d → d ≤ suc c
    pub layers : Layers s.depth c s.queue

  -- what the loop over the pages `vs` makes of the state `s`
  pub record Visits (s : Search) (vs : List String) (t : Search) : Type 0 where
    pub level : IsLevel t
    pub grows : Extends s.depth t.depth
    pub stays : (w : String) → In w s.queue → In w t.queue
    pub fresh :
        (w : String) (d : ℕ)
        → lookup w t.depth ≡ some d
        → (lookup w s.depth ≡ some d) ⊎ In w t.queue
    pub reached : (v : String) → In v vs → (e : ℕ) × (lookup v t.depth ≡ some e) × (e ≤ suc c)

  abbrev push : String → Search → Search
  push v s = record { depth = insert v (suc c) s.depth; queue = s.queue ++ v ∷ [] }

  push-IsLevel :
      (v : String) (s : Search)
      → lookup v s.depth ≡ none
      → Walk adjacency root (suc c) v
      → IsLevel s
      → IsLevel (push v s)
  push-IsLevel v s new w l = record {
    sound = λ u d q. elim (insert_back s.depth v (suc c) new u d q) [
      | inl old ↦ l.sound u d old
      | inr both ↦
          subst (λ x. Walk adjacency root d x) both.0
            (subst (λ n. Walk adjacency root n v) both.1 w)
    ];
    bound = λ u d q. elim (insert_back s.depth v (suc c) new u d q) [
      | inl old ↦ l.bound u d old
      | inr both ↦ omega (arith, both.1)
    ];
    layers =
        Layers-append (insert v (suc c) s.depth) c s.queue v (insert_new s.depth v (suc c) new) (
          Layers-Extends s.depth (insert v (suc c) s.depth) c s.queue
            (insert_old s.depth v (suc c) new) l.layers);
  }

  push-Visits :
      (v : String) (s : Search)
      → lookup v s.depth ≡ none
      → Walk adjacency root (suc c) v
      → IsLevel s
      → Visits s (v ∷ []) (push v s)
  push-Visits v s new w l = record {
    level = push-IsLevel v s new w l;
    grows = insert_old s.depth v (suc c) new;
    stays = λ u h. In-append u s.queue (v ∷ []) h;
    fresh = λ u d q. elim (insert_back s.depth v (suc c) new u d q) [
      | inl old ↦ inl old
      | inr both ↦ inr (subst (λ x. In x (s.queue ++ v ∷ [])) both.0 (In-last v s.queue))
    ];
    reached = λ u h. elim h [
      | inl e ↦ (
        suc c,
        subst (λ x. lookup x (insert v (suc c) s.depth) ≡ some (suc c)) e
            (insert_new s.depth v (suc c) new),
        omega arith,
      )
      | inr none_left ↦ absurd none_left
    ];
  }

  skip-Visits :
      (v : String) (s : Search) (d : ℕ)
      → lookup v s.depth ≡ some d
      → IsLevel s
      → Visits s (v ∷ []) s
  skip-Visits v s d old l = record {
    level = l;
    grows = λ u e q. q;
    stays = λ u h. h;
    fresh = λ u e q. inl q;
    reached = λ u h. elim h [
      | inl e ↦ (d, subst (λ x. lookup x s.depth ≡ some d) e old, l.bound v d old)
      | inr none_left ↦ absurd none_left
    ];
  }

  then_Visits :
      (v : String) (vs : List String) (s t u : Search)
      → Visits s (v ∷ []) t
      → Visits t vs u
      → Visits s (v ∷ vs) u
  then_Visits v vs s t u f g = record {
    level = g.level;
    grows = λ w d q. g.grows w d (f.grows w d q);
    stays = λ w h. g.stays w (f.stays w h);
    fresh = λ w d q. elim (g.fresh w d q) [
      | inl before ↦ elim (f.fresh w d before) [ inl old ↦ inl old | inr h ↦ inr (g.stays w h) ]
      | inr h ↦ inr h
    ];
    reached = λ w h. elim h [
      | inl e ↦ let (d, q, le) = f.reached w (inl e) in (d, g.grows w d q, le)
      | inr h' ↦ g.reached w h'
    ];
  }

  none_left : (s : Search) → IsLevel s → Visits s [] s
  none_left s l = record {
    level = l;
    grows = λ u e q. q;
    stays = λ u h. h;
    fresh = λ u e q. inl q;
    reached = λ u h. absurd h;
  }

  pub visit-Visits :
      (vs : List String) (s : Search)
      → ((v : String) → In v vs → Walk adjacency root (suc c) v)
      → IsLevel s
      → Visits s vs (visit (suc c) vs s)
  unfolding visit
  visit-Visits [] s walks l = none_left s l
  visit-Visits (v ∷ vs) s walks l = elim (Option-cases (lookup v s.depth)) [
    | inl new ↦
        let first = push-Visits v s new (walks v (inl refl)) l in
        let rest = visit-Visits vs (push v s) (λ w h. walks w (inr h)) first.level in
        rw new (then_Visits v vs s (push v s) _ first rest)
    | inr (d, old) ↦
        let rest = visit-Visits vs s (λ w h. walks w (inr h)) l in
        rw old (then_Visits v vs s s _ (skip-Visits v s d old l) rest)
  ]
