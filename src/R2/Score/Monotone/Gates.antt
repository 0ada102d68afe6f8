-- ===== src/R2/Score/Monotone/Gates.antt =====
-- When rows do better, every gate that fires has fired before.
use scovant_core.Prelude.{
  String, ◌≡◌, refl, sym, ◌∙◌, ap, inl, inr, true, Option, none, some, List, [], ◌∷◌, All, Both,
  Bool-cases, arith, str_eq, eq_iff,
}
use scovant_core.R2.Policy.{ScoringPolicy, Gate, find_gate, gate_for}
use scovant_core.R2.Manifest.{is_gate}
use scovant_core.R2.Score.Rows.{Row}
use scovant_core.R2.Score.Gates.{GateHit, hits_group, add_hit, fires, fired_gates}
use scovant_core.R2.Score.Caps.{Has, Covered, Has-last, Covered-append, All-last}
use scovant_core.R2.Score.Monotone.Defs.{RowLe, flags_of}

find_gate-group :
    (group : String) (gs : List Gate) (g : Gate)
    → find_gate group gs ≡ some g
    → g.root_cause_group ≡ group
unfolding find_gate
find_gate-group group [] g h = cc
find_gate-group group (x ∷ gs) g h = elim (Bool-cases (str_eq x.root_cause_group group)) [
  | inl e ↦ ground (arith, eq_iff x.root_cause_group group)
  | inr e ↦ find_gate-group group gs g (ground arith)
]

module _ {F : Type 0} (policy : ScoringPolicy F) where
  -- the policy's gate for the group of the hit
  pub record FromPolicy (h : GateHit) : Type 0 where
    gate : Gate
    found : gate_for policy h.root_cause_group ≡ some gate
    effect : h.effect ≡ gate.effect
    cap : h.cap ≡ gate.cap

  abbrev hit_of : Row → Gate → GateHit
  hit_of r g = record {
    root_cause_group = g.root_cause_group;
    effect = g.effect;
    cap = g.cap;
    rule_id = r.spec.rule_id;
  }

  -- the gate that was found is the one found for its own group
  own_gate :
      (group : String) (g : Gate)
      → gate_for policy group ≡ some g
      → gate_for policy g.root_cause_group ≡ some g
  unfolding gate_for
  own_gate group g h =
      ap (λ x. find_gate x policy.gates) (find_gate-group group policy.gates g h) ∙ h

  hit_of-FromPolicy :
      (r : Row) (g : Gate)
      → gate_for policy r.spec.root_cause_group ≡ some g
      → FromPolicy (hit_of r g)
  hit_of-FromPolicy r g h = record {
    gate = g;
    found = own_gate r.spec.root_cause_group g h;
    effect = refl;
    cap = refl;
  }

  add_hit-FromPolicy :
      (r : Row) (o : Option Gate) (hits : List GateHit)
      → gate_for policy r.spec.root_cause_group ≡ o
      → All FromPolicy hits
      → All FromPolicy (add_hit r o hits)
  unfolding add_hit
  add_hit-FromPolicy r none hits e h = h
  add_hit-FromPolicy r (some g) hits e h = elim (Bool-cases (hits_group g.root_cause_group hits)) [
    | inl t ↦ rw t h
    | inr t ↦ rw t (All-last FromPolicy _ hits h (hit_of-FromPolicy r g e))
  ]

  -- a hit of the gate's group is a hit of the gate
  found_hit :
      (s : Row) (g : Gate) (hits : List GateHit)
      → gate_for policy g.root_cause_group ≡ some g
      → All FromPolicy hits
      → hits_group g.root_cause_group hits ≡ true
      → Has (hit_of s g) hits
  found_hit s g [] e h t = cc
  found_hit s g (x ∷ hits) e h t =
      elim (Bool-cases (str_eq x.root_cause_group g.root_cause_group)) [
        | inl q ↦
            let same : x.root_cause_group ≡ g.root_cause_group = (eq_iff _ _).0 q in
            let gates : some h.0.gate ≡ some g = sym h.0.found ∙ ap (gate_for policy) same ∙ e in
            inl
              (record { group = same; effect = cc (gates, h.0.effect); cap = cc (gates, h.0.cap) })
        | inr q ↦ inr (found_hit s g hits e h.1 (ground arith))
      ]

  -- the worse run's list has the gate once its row was added
  add_hit-Has :
      (r s : Row) (g : Gate) (hits : List GateHit)
      → gate_for policy g.root_cause_group ≡ some g
      → All FromPolicy hits
      → Has (hit_of s g) (add_hit r (some g) hits)
  unfolding add_hit
  add_hit-Has r s g hits e h = elim (Bool-cases (hits_group g.root_cause_group hits)) [
    | inl t ↦ rw t (found_hit s g hits e h t)
    | inr t ↦ rw t (Has-last _ _ hits (record { group = refl; effect = refl; cap = refl }))
  ]

  add_hit-Covered :
      (r : Row) (o : Option Gate) (hits hits' : List GateHit)
      → Covered hits hits'
      → Covered (add_hit r o hits) hits'
  unfolding add_hit
  add_hit-Covered r none hits hits' c = c
  add_hit-Covered r (some g) hits hits' c = elim (Bool-cases (hits_group g.root_cause_group hits)) [
    | inl t ↦ rw t c
    | inr t ↦ rw t (Covered-append hits _ hits' c)
  ]

  -- both rows fire
  add_both-Covered :
      (r s : Row) (o o' : Option Gate) (hits hits' : List GateHit)
      → gate_for policy r.spec.root_cause_group ≡ o
      → o ≡ o'
      → All FromPolicy hits
      → Covered hits hits'
      → Covered (add_hit r o hits) (add_hit s o' hits')
  add_both-Covered r s none o' hits hits' e q f c = rw (← q) (unfold add_hit in c)
  add_both-Covered r s (some g) o' hits hits' e q f c =
      rw (← q) (elim (Bool-cases (hits_group g.root_cause_group hits')) [
        | inl t ↦ unfold add_hit in rw t (add_hit-Covered r (some g) hits hits' c)
        | inr t ↦
            unfold add_hit in
            rw t (
              All-last (λ k. Has k (add_hit r (some g) hits)) _ hits'
                (add_hit-Covered r (some g) hits hits' c)
                (add_hit-Has r s g hits (own_gate r.spec.root_cause_group g e) f))
      ])

  fires_less : (r s : Row) → RowLe r s → fires policy s ≡ true → fires policy r ≡ true
  fires_less r s h t = ground (
    arith,
    ap (λ x. is_gate x.score_effect) h.same_spec,
    (flags_of r.outcome.state s.outcome.state h.outcome.state).fail,
  )

  pub fired_gates-Covered :
      (hits hits' : List GateHit) (rows rows' : List Row)
      → All FromPolicy hits
      → Covered hits hits'
      → Both RowLe rows rows'
      → Covered (fired_gates policy hits rows) (fired_gates policy hits' rows')
  unfolding fired_gates
  fired_gates-Covered hits hits' [] [] f c h = c
  fired_gates-Covered hits hits' [] (s ∷ ss) f c h = absurd h
  fired_gates-Covered hits hits' (r ∷ rs) [] f c h = absurd h
  fired_gates-Covered hits hits' (r ∷ rs) (s ∷ ss) f c h =
      let gate = gate_for policy r.spec.root_cause_group in
      let gate' = gate_for policy s.spec.root_cause_group in
      elim (Bool-cases (fires policy s)) [
        | inl t ↦
            rw (t, fires_less r s h.0 t)
              (fired_gates-Covered (add_hit r gate hits) (add_hit s gate' hits') rs ss
                (add_hit-FromPolicy r gate hits refl f)
                (add_both-Covered r s gate gate' hits hits' refl
                  (ap (λ x. gate_for policy x.root_cause_group) h.0.same_spec) f c)
                h.1)
        | inr t ↦ elim (Bool-cases (fires policy r)) [
          | inl u ↦
              rw (t, u)
                (fired_gates-Covered (add_hit r gate hits) hits' rs ss
                  (add_hit-FromPolicy r gate hits refl f) (add_hit-Covered r gate hits hits' c) h.1)
          | inr u ↦ rw (t, u) (fired_gates-Covered hits hits' rs ss f c h.1)
        ]
      ]
