-- ===== src/R2/Score/Fired.antt =====
-- The gates that fire: one hit for each root cause, and the failing gate rules that they stand for.
use scovant_core.Prelude.{
  String, ◌≡◌, refl, sym, ◌∙◌, inl, inr, Bool, true, false, ◌||◌, some, List, [], ◌∷◌, ◌++◌, map,
  All, In, each_In, All-append, if◌then◌else◌, Bool-cases, Option-cases, str_eq, eq_refl, or_false,
  str_eq_sym, contains, repeats,
}
use scovant_core.R2.Policy.{ScoringPolicy, Gate, gate_for}
use scovant_core.R2.Score.Rows.{Row}
use scovant_core.R2.Score.Gates.{GateHit, hits_group, fires, add_hit, fired_gates}

abbrev pub hit_of : Gate → Row → GateHit
hit_of g r = record {
  root_cause_group = g.root_cause_group;
  effect = g.effect;
  cap = g.cap;
  rule_id = r.spec.rule_id;
}

abbrev pub groups : List GateHit → List String
groups hits = map (λ h. h.root_cause_group) hits

or_true : (b : Bool) → (b || true) ≡ true
or_true true = refl
or_true false = refl

hits_group-append :
    (k : String) (xs ys : List GateHit)
    → hits_group k (xs ++ ys) ≡ (hits_group k xs || hits_group k ys)
hits_group-append k [] ys = refl
hits_group-append k (x ∷ xs) ys = elim (Bool-cases (str_eq x.root_cause_group k)) [
  | inl e ↦ rw e refl
  | inr e ↦ rw e (hits_group-append k xs ys)
]

contains-groups : (k : String) (xs : List GateHit) → contains (groups xs) k ≡ hits_group k xs
contains-groups k [] = refl
contains-groups k (x ∷ xs) = rw (contains-groups k xs) refl

repeats-append :
    (xs : List GateHit) (h : GateHit)
    → repeats (groups xs) ≡ false
    → hits_group h.root_cause_group xs ≡ false
    → repeats (groups (xs ++ h ∷ [])) ≡ false
repeats-append [] h p q = refl
repeats-append (x ∷ xs) h p q =
    let (p0, p1) = or_false _ _ p in
    let (q0, q1) = or_false _ _ q in
    let key = x.root_cause_group in
    let here : contains (groups (xs ++ h ∷ [])) key
        ≡ (hits_group key xs || hits_group key (h ∷ [])) =
      contains-groups key (xs ++ h ∷ []) ∙ hits_group-append key xs (h ∷ []) in
    let old : hits_group key xs ≡ false = sym (contains-groups key xs) ∙ p0 in
    rw (here, old, str_eq_sym key h.root_cause_group q0) (repeats-append xs h p1 q1)

all_unit : (rows : List Row) → All (λ r. Unit {0}) rows
all_unit [] = tt
all_unit (r ∷ rows) = (tt, all_unit rows)

module _ {F : Type 0} (policy : ScoringPolicy F) where
  -- one turn of the loop
  next : Row → List GateHit → List GateHit
  next r hits =
      if fires policy r then add_hit r (gate_for policy r.spec.root_cause_group) hits else hits

  -- what a row needs for a hit: it fires, and the policy has a gate for its group
  pub record Fires (g : Gate) (r : Row) : Type 0 where
    pub fails : fires policy r ≡ true
    pub gate : gate_for policy r.spec.root_cause_group ≡ some g

  -- a property of lists of hits that every hit added for a row keeps
  module _ (P : List GateHit → Type 0) (R : Row → Type 0)
      (grow : (r : Row) (g : Gate) (hits : List GateHit)
        → R r
        → Fires g r
        → hits_group g.root_cause_group hits ≡ false
        → P hits
        → P (hits ++ hit_of g r ∷ [])) where
    next_keeps : (r : Row) (hits : List GateHit) → R r → P hits → P (next r hits)
    unfolding next add_hit
    next_keeps r hits m h = elim (Bool-cases (fires policy r)) [
      | inr e ↦ rw e h
      | inl e ↦ elim (Option-cases (gate_for policy r.spec.root_cause_group)) [
        | inl z ↦ rw (e, z) h
        | inr (g, z) ↦ elim (Bool-cases (hits_group g.root_cause_group hits)) [
          | inl b ↦ rw (e, z, b) h
          | inr b ↦ rw (e, z, b) (grow r g hits m (record { fails = e; gate = z }) b h)
        ]
      ]
    ]

    fired_gates_keeps :
        (hits : List GateHit) (rows : List Row)
        → All R rows
        → P hits
        → P (fired_gates policy hits rows)
    unfolding fired_gates next
    fired_gates_keeps hits [] m h = h
    fired_gates_keeps hits (r ∷ rows) m h =
        fired_gates_keeps (next r hits) rows m.1 (next_keeps r hits m.0 h)

  -- the failing gate rule that a hit stands for
  pub record FiredFor (rows : List Row) (h : GateHit) : Type 0 where
    pub row : Row
    pub member : In row rows
    pub gate : Gate
    pub fired : Fires gate row
    pub is_hit : hit_of gate row ≡ h

  fired_gates_sound : (rows : List Row) → All (FiredFor rows) (fired_gates policy [] rows)
  fired_gates_sound rows =
      fired_gates_keeps (All (FiredFor rows)) (λ r. In r rows)
        (λ r g hits m f _ h.
          All-append (FiredFor rows) hits (hit_of g r ∷ []) h
            (record { row = r; member = m; gate = g; fired = f; is_hit = refl }, tt))
        [] rows (each_In rows) tt

  fired_gates-repeats : (rows : List Row) → repeats (groups (fired_gates policy [] rows)) ≡ false
  fired_gates-repeats rows =
      fired_gates_keeps (λ hits. repeats (groups hits) ≡ false) (λ r. Unit {0})
        (λ r g hits _ _ b h. repeats-append hits (hit_of g r) h b) [] rows (all_unit rows) refl

  next-hits :
      (r : Row) (g : Gate) (hits : List GateHit)
      → Fires g r
      → hits_group g.root_cause_group (next r hits) ≡ true
  unfolding next add_hit
  next-hits r g hits f = elim (Bool-cases (hits_group g.root_cause_group hits)) [
    | inl b ↦ rw (f.fails, f.gate, b) b
    | inr b ↦
        rw (f.fails, f.gate, b)
          (hits_group-append g.root_cause_group hits (hit_of g r ∷ [])
            ∙ rw (eq_refl g.root_cause_group) (or_true (hits_group g.root_cause_group hits)))
  ]

  stays :
      (k : String) (hits : List GateHit) (rows : List Row)
      → hits_group k hits ≡ true
      → hits_group k (fired_gates policy hits rows) ≡ true
  stays k hits rows h =
      fired_gates_keeps (λ hs. hits_group k hs ≡ true) (λ r. Unit {0})
        (λ r g hs _ _ _ q. hits_group-append k hs (hit_of g r ∷ []) ∙ rw q refl) hits rows
        (all_unit rows) h

  fired_gates-covers :
      (hits : List GateHit) (rows : List Row)
      → All
          (λ r.
            (g : Gate)
            → Fires g r
            → hits_group g.root_cause_group (fired_gates policy hits rows) ≡ true)
          rows
  unfolding fired_gates next
  fired_gates-covers hits [] = tt
  fired_gates-covers hits (r ∷ rows) = (
    λ g f. stays g.root_cause_group (next r hits) rows (next-hits r g hits f),
    fired_gates-covers (next r hits) rows,
  )

  pub record IsGateList (rows : List Row) (hits : List GateHit) : Type 0 where
    pub once : repeats (groups hits) ≡ false
    pub sound : All (FiredFor rows) hits
    pub complete :
        All (λ r. (g : Gate) → Fires g r → hits_group g.root_cause_group hits ≡ true) rows

  -- The gates that `score_r2` applies: no group has two; each is the policy's gate for the group of a
  -- failing gate rule among the rows, with its effect, its cap and that rule's id; and each failing
  -- gate rule whose group the policy has a gate for has one.
  pub fired_gates-IsGateList : (rows : List Row) → IsGateList rows (fired_gates policy [] rows)
  fired_gates-IsGateList rows = record {
    once = fired_gates-repeats rows;
    sound = fired_gates_sound rows;
    complete = fired_gates-covers [] rows;
  }
