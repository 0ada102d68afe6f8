-- ===== src/Analysis/CrawlGraph/Walks.antt =====
-- Walks along links, and the queue of a breadth-first search as two layers.
use scovant_core.Prelude.{
  ℕ, String, suc, ◌≡◌, refl, sym, ap, ◌∙◌, ◌⊎◌, inl, inr, none, some, List, [], ◌∷◌, ◌++◌,
  Bool-cases, str_eq, eq_iff, eq_refl, lookup, insert, lookup-insert, All, All_map, All-append, In,
}
use scovant_core.Analysis.CrawlGraph.{Links, links_of}

module _ (adjacency : Links) (root : String) where
  -- a walk along links, with its number of hops
  pub data Walk : ℕ → String → Type 0 where
    here : Walk 0 root
    hop : {n : ℕ} {u v : String} → Walk n u → In v (links_of adjacency u) → Walk (suc n) v

abbrev pub Depths : Type 0
Depths = List (String × ℕ)

-- the queue holds pages of depth `c`, and behind them pages of depth `c + 1`
abbrev pub Layers : Depths → ℕ → List String → Type 0
Layers D c [] = Unit
Layers D c (u ∷ us) =
    ((lookup u D ≡ some c) × Layers D c us) ⊎ All (λ v. lookup v D ≡ some (suc c)) (u ∷ us)

abbrev pub Extends : Depths → Depths → Type 0
Extends D E = (u : String) (d : ℕ) → lookup u D ≡ some d → lookup u E ≡ some d

pub Layers-Extends :
    (D E : Depths) (c : ℕ) (us : List String) → Extends D E → Layers D c us → Layers E c us
Layers-Extends D E c [] x h = tt
Layers-Extends D E c (u ∷ us) x (inl (q, h)) = inl (x u c q, Layers-Extends D E c us x h)
Layers-Extends D E c (u ∷ us) x (inr h) = inr (All_map _ _ (λ v q. x v (suc c) q) (u ∷ us) h)

pub Layers-append :
    (D : Depths) (c : ℕ) (us : List String) (v : String)
    → lookup v D ≡ some (suc c)
    → Layers D c us
    → Layers D c (us ++ v ∷ [])
Layers-append D c [] v q h = inr (q, tt)
Layers-append D c (u ∷ us) v q (inl (p, h)) = inl (p, Layers-append D c us v q h)
Layers-append D c (u ∷ us) v q (inr h) = inr (All-append _ (u ∷ us) (v ∷ []) h (q, tt))

pub Layers-next :
    (D : Depths) (c : ℕ) (us : List String)
    → All (λ v. lookup v D ≡ some (suc c)) us
    → Layers D (suc c) us
Layers-next D c [] h = tt
Layers-next D c (u ∷ us) h = inl (h.0, Layers-next D c us h.1)

pub In-append : (w : String) (us vs : List String) → In w us → In w (us ++ vs)
In-append w [] vs h = absurd h
In-append w (u ∷ us) vs (inl e) = inl e
In-append w (u ∷ us) vs (inr h) = inr (In-append w us vs h)

pub In-last : (v : String) (us : List String) → In v (us ++ v ∷ [])
In-last v [] = inl refl
In-last v (u ∷ us) = inr (In-last v us)

module _ (D : Depths) (v : String) (n : ℕ) (new : lookup v D ≡ none) where
  -- a page that has no depth gets one
  pub insert_new : lookup v (insert v n D) ≡ some n
  insert_new = rw (lookup-insert v v n D) (rw (eq_refl v) refl)

  pub insert_old : Extends D (insert v n D)
  insert_old u d q = elim (Bool-cases (str_eq v u)) [
    | inl e ↦
        let same : v ≡ u = (eq_iff v u).0 e in
        let gone : lookup u D ≡ none = ap (λ x. lookup x D) (sym same) ∙ new in absurd cc
    | inr e ↦ rw (lookup-insert v u n D) (rw e q)
  ]

  pub insert_back :
      (u : String) (d : ℕ)
      → lookup u (insert v n D) ≡ some d
      → (lookup u D ≡ some d) ⊎ ((v ≡ u) × (n ≡ d))
  insert_back u d q = elim (Bool-cases (str_eq v u)) [
    | inl e ↦
        let both : n ≡ d = cc (rw e at (rw (lookup-insert v u n D) at q)) in
        inr ((eq_iff v u).0 e, both)
    | inr e ↦ inl (rw e at (rw (lookup-insert v u n D) at q))
  ]
