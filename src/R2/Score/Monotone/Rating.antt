-- ===== src/R2/Score/Monotone/Rating.antt =====
-- The last stage of two runs: scores, mean, rating, badge and grade, when rows do better.
use mathlib.Core.Path.{subst₂}
use scovant_core.Prelude.{
  ℕ, String, ◌≡◌, refl, ◌≤◌, ◌⊎◌, inl, inr, Bool, true, false, not, ◌&&◌, ◌||◌, Option, none, some,
  List, [], ◌∷◌, All, Both, Bool-cases, arith, if◌then◌else◌, ltb, map, In, is_empty, Result, ok,
  ◌>>◌, raise_if,
}
use scovant_core.Prelude.Float.{Float, IsMonotone, ◌≼◌, max_F}
use scovant_core.R2.Outcome.{R2Category}
use scovant_core.R2.Policy.{ScoringPolicy, category_applies}
use scovant_core.R2.Score.Rows.{ScoreError}
use scovant_core.R2.Score.Gates.{GateHit}
use scovant_core.R2.Score.Totals.{Totals}
use scovant_core.R2.Score.Rating.{
  Rated, raw_score, raw_scores, raw_coverage, weights_of, products_of, mean_of, half_up, apply_caps,
  rate, floor_label, degraded_rating, full_rating, unrated,
}
use scovant_core.R2.Score.Caps.{Covered, apply_caps_mono, blocks_badge-Covered}
use scovant_core.R2.Score.Monotone.Defs.{Below, min_F-Below}
use scovant_core.R2.Score.Monotone.Totals.{TotalsLe, add-Below, mul-Below, of_ℕ-Below}

-- The numbers of a policy that the rating may not turn round.
pub record IsPositive {F : Type 0} ⦃fl : Float F⦄ (policy : ScoringPolicy F) : Type 0 where
  pub prior : fl.of_ℕ 0 ≼ policy.category_prior_weight
  pub weights : (c : R2Category) → fl.of_ℕ 0 ≼ policy.category_weights c

abbrev pub NumberLe : Option ℕ → Option ℕ → Type 0
NumberLe none none = Unit
NumberLe (some n) (some m) = n ≤ m
NumberLe _ _ = ⊥

abbrev pub Ladder : Type 0
Ladder = List (ℕ × String)

abbrev labels : Ladder → List String
labels ladder = map (λ step. step.1) ladder

-- a step of the ladder has the second label, and it or a later one has the first
abbrev pub NotBelow : Ladder → String → String → Type 0
NotBelow [] x y = ⊥
NotBelow ((floor, label) ∷ ladder) x y =
    ((label ≡ y) × In x (label ∷ labels ladder)) ⊎ NotBelow ladder x y

-- a label that was given is still given, or one that stands before it in the ladder
abbrev pub LabelLe : Ladder → Option String → Option String → Type 0
LabelLe ladder none b = Unit
LabelLe ladder (some x) none = ⊥
LabelLe ladder (some x) (some y) = NotBelow ladder x y

later-LabelLe :
    (step : ℕ × String) (ladder : Ladder) (a b : Option String)
    → LabelLe ladder a b
    → LabelLe (step ∷ ladder) a b
later-LabelLe step ladder none b h = tt
later-LabelLe step ladder (some x) none h = h
later-LabelLe step ladder (some x) (some y) h = inr h

abbrev Stands : Ladder → Option String → Type 0
Stands ladder none = Unit
Stands ladder (some x) = In x (labels ladder)

later-Stands :
    (step : ℕ × String) (ladder : Ladder) (a : Option String)
    → Stands ladder a
    → Stands (step ∷ ladder) a
later-Stands step ladder none h = tt
later-Stands step ladder (some x) h = inr h

floor_label-Stands : (n : ℕ) (ladder : Ladder) → Stands ladder (floor_label n ladder)
unfolding floor_label
floor_label-Stands n [] = tt
floor_label-Stands n ((floor, label) ∷ ladder) = elim (Bool-cases (ltb n floor)) [
  | inl e ↦ rw e (later-Stands (floor, label) ladder _ (floor_label-Stands n ladder))
  | inr e ↦ rw e (inl refl)
]

-- the first step of a ladder is above what stands in it
first_above :
    (floor : ℕ) (label : String) (ladder : Ladder) (a : Option String)
    → Stands ((floor, label) ∷ ladder) a
    → LabelLe ((floor, label) ∷ ladder) a (some label)
first_above floor label ladder none h = tt
first_above floor label ladder (some x) h = inl (refl, h)

floor_label-LabelLe :
    (n m : ℕ) (ladder : Ladder)
    → n ≤ m
    → LabelLe ladder (floor_label n ladder) (floor_label m ladder)
unfolding floor_label
floor_label-LabelLe n m [] le = tt
floor_label-LabelLe n m ((floor, label) ∷ ladder) le = elim (Bool-cases (ltb m floor)) [
  | inl e ↦
      let lower : ltb n floor ≡ true = ground arith in
      rw (e, lower) (later-LabelLe (floor, label) ladder _ _ (floor_label-LabelLe n m ladder le))
  | inr e ↦
      let above =
        first_above floor label ladder (floor_label n ((floor, label) ∷ ladder))
          (floor_label-Stands n ((floor, label) ∷ ladder)) in
      rw e above
]

-- a badge that is withheld from the second is withheld from the first
withheld-LabelLe :
    (ladder : Ladder) (b c : Bool) (x y : Option String)
    → (c ≡ true → b ≡ true)
    → LabelLe ladder x y
    → LabelLe ladder (if b then none else x) (if c then none else y)
withheld-LabelLe ladder true c x y h k = tt
withheld-LabelLe ladder false true x y h k = absurd (absurd_false (h refl))
  where
    absurd_false : false ≡ true → ⊥
    absurd_false q = absurd cc
withheld-LabelLe ladder false false x y h k = k

module _ {F : Type 0} ⦃fl : Float F⦄ where
  abbrev pub FloatLe : Option F → Option F → Type 0
  FloatLe none none = Unit
  FloatLe (some x) (some y) = x ≼ y
  FloatLe _ _ = ⊥

  pub record RatedLe (policy : ScoringPolicy F) (a b : Rated F) : Type 0 where
    pub rating_raw : FloatLe a.rating_raw b.rating_raw
    pub rating : NumberLe a.rating b.rating
    pub grade : LabelLe policy.grades a.grade b.grade
    pub badge : LabelLe policy.badges a.badge b.badge
    pub status : a.status ≡ b.status

  related :
      {policy : ScoringPolicy F} {x y a b : Rated F}
      → x ≡ a
      → y ≡ b
      → RatedLe policy x y
      → RatedLe policy a b
  related {policy} p q h = subst₂ (RatedLe policy) p q h

  -- the shape of `rate`: its three tests and its three answers
  abbrev choose : Bool → Bool → Bool → Rated F → Rated F → Rated F → Result ScoreError (Rated F)
  choose thin divisible shaky none_yet low full =
      if thin
      then ok none_yet
      else do raise_if (not divisible) ScoreError.zero_division; ok (if shaky then low else full)

  -- `a` and `b` are what the same tests choose of answers that are in order
  choose-RatedLe :
      (thin thin' divisible divisible' shaky shaky' : Bool) (o l l' f f' : Rated F)
      {policy : ScoringPolicy F} {a b : Rated F}
      → thin ≡ thin'
      → divisible ≡ divisible'
      → shaky ≡ shaky'
      → RatedLe policy o o
      → RatedLe policy l l'
      → RatedLe policy f f'
      → choose thin divisible shaky o l f ≡ ok a
      → choose thin' divisible' shaky' o l' f' ≡ ok b
      → RatedLe policy a b
  choose-RatedLe true thin' v v' s s' o l l' f f' et ev es ho hl hf p q = related (cc) (cc) ho
  choose-RatedLe false thin' false v' s s' o l l' f f' et ev es ho hl hf p q = cc
  choose-RatedLe false thin' true v' true s' o l l' f f' et ev es ho hl hf p q =
      related (cc) (cc) hl
  choose-RatedLe false thin' true v' false s' o l l' f f' et ev es ho hl hf p q =
      related (cc) (cc) hf

  pub record ScoreLe (p q : R2Category × F) : Type 0 where
    pub category : p.0 ≡ q.0
    pub score : Below p.1 q.1

  abbrev OptionBelow : Option F → Option F → Type 0
  OptionBelow none none = Unit
  OptionBelow (some x) (some y) = Below x y
  OptionBelow _ _ = ⊥

  module _ (laws : IsMonotone F) (policy : ScoringPolicy F) (positive : IsPositive policy) where
    div-Below : (a b c : F) → Below a b → fl.of_ℕ 0 ≼ c → Below (fl.div a c) (fl.div b c)
    div-Below a b c h pos = (laws.div_nonneg a c h.0 pos, laws.div_mono a b c h.1 pos)

    raw_score-Below :
        (profile : String) (t u : Totals F) (c : R2Category)
        → TotalsLe t u
        → OptionBelow (raw_score policy profile t c) (raw_score policy profile u c)
    unfolding raw_score
    raw_score-Below profile t u c k =
        let prior = policy.category_prior_weight in
        let prior_Below : Below prior prior = (positive.prior, laws.le_refl prior) in
        let top =
          mul-Below laws _ _ _ _ (of_ℕ-Below laws 100)
            (add-Below laws _ _ _ _ (k.num c) prior_Below) in
        let bottom =
          (add-Below laws (t.cat_den c) (t.cat_den c) prior prior (k.den_nonneg c, laws.le_refl _)
            prior_Below).0 in
        rw (← k.den c)
          (elim (Bool-cases (category_applies policy c profile && fl.nonzero (t.cat_den c))) [
            | inl e ↦ rw e (div-Below _ _ _ top bottom)
            | inr e ↦ rw e tt
          ])

    cons-ScoreLe :
        (c : R2Category) (o o' : Option F) (rest rest' : List (R2Category × F))
        → OptionBelow o o'
        → Both ScoreLe rest rest'
        → Both ScoreLe
            (elim o [ none ↦ rest | some s ↦ (c, s) ∷ rest ])
            (elim o' [ none ↦ rest' | some s ↦ (c, s) ∷ rest' ])
    cons-ScoreLe c none none rest rest' b h = h
    cons-ScoreLe c none (some y) rest rest' b h = absurd b
    cons-ScoreLe c (some x) none rest rest' b h = absurd b
    cons-ScoreLe c (some x) (some y) rest rest' b h = (record { category = refl; score = b }, h)

    pub raw_scores-ScoreLe :
        (profile : String) (t u : Totals F) (cs : List R2Category)
        → TotalsLe t u
        → Both ScoreLe (raw_scores policy profile t cs) (raw_scores policy profile u cs)
    unfolding raw_scores
    raw_scores-ScoreLe profile t u [] k = tt
    raw_scores-ScoreLe profile t u (c ∷ cs) k =
        cons-ScoreLe c _ _ _ _ (raw_score-Below profile t u c k)
          (raw_scores-ScoreLe profile t u cs k)

    weights_alike :
        (xs ys : List (R2Category × F))
        → Both ScoreLe xs ys
        → weights_of policy xs ≡ weights_of policy ys
    weights_alike [] [] h = refl
    weights_alike [] (y ∷ ys) h = absurd h
    weights_alike (x ∷ xs) [] h = absurd h
    weights_alike (x ∷ xs) (y ∷ ys) h = cc (h.0.category, weights_alike xs ys h.1)

    products_Both :
        (xs ys : List (R2Category × F))
        → Both ScoreLe xs ys
        → Both ◌≼◌ (products_of policy xs) (products_of policy ys)
    products_Both [] [] h = tt
    products_Both [] (y ∷ ys) h = absurd h
    products_Both (x ∷ xs) [] h = absurd h
    products_Both (x ∷ xs) (y ∷ ys) h = (
      (mul-Below laws _ _ _ _ h.0.score (
        positive.weights x.0,
        rw (← h.0.category) (laws.le_refl (policy.category_weights x.0)),
      )).1,
      products_Both xs ys h.1,
    )

    weights_nonneg : (xs : List (R2Category × F)) → All (λ x. fl.of_ℕ 0 ≼ x) (weights_of policy xs)
    weights_nonneg [] = tt
    weights_nonneg (x ∷ xs) = (positive.weights x.0, weights_nonneg xs)

    max_F-Below : (x y : F) → x ≼ y → Below (max_F (fl.of_ℕ 0) x) (max_F (fl.of_ℕ 0) y)
    max_F-Below x y h = elim (Bool-cases (fl.lt (fl.of_ℕ 0) x)) [
      | inl e ↦ elim (Bool-cases (fl.lt (fl.of_ℕ 0) y)) [
        | inl e' ↦ rw (e, e') (laws.le_of_lt _ x e, h)
        | inr e' ↦ rw (e, e') (laws.le_of_lt _ x e, laws.le_trans x y _ h e')
      ]
      | inr e ↦ elim (Bool-cases (fl.lt (fl.of_ℕ 0) y)) [
        | inl e' ↦ rw (e, e') (laws.le_refl _, laws.le_of_lt _ y e')
        | inr e' ↦ rw (e, e') (laws.le_refl _, laws.le_refl _)
      ]
    ]

    mean_of-Below :
        (xs ys : List (R2Category × F))
        → Both ScoreLe xs ys
        → Below (mean_of policy xs) (mean_of policy ys)
    unfolding mean_of
    mean_of-Below xs ys h = min_F-Below laws _ _ _ _ (of_ℕ-Below laws 100) (
        max_F-Below _ _ (
          rw (← weights_alike xs ys h) (
            laws.div_mono _ _ _ (laws.sum_mono _ _ (products_Both xs ys h))
              (laws.sum_nonneg _ (weights_nonneg xs)))))

    half_up_mono : (x y : F) → x ≼ y → half_up policy x ≤ half_up policy y
    unfolding half_up
    half_up_mono x y h =
        laws.floor_mono _ _
          (laws.add_mono x y (fl.lit 5 1) (fl.lit 5 1) h (laws.le_refl (fl.lit 5 1)))

    full_rating-RatedLe :
        (hits hits' : List GateHit) (x y : F) (n m : ℕ)
        → Covered hits hits'
        → x ≼ y
        → n ≤ m
        → RatedLe policy (full_rating policy hits x n) (full_rating policy hits' y m)
    full_rating-RatedLe hits hits' x y n m c le le' = record {
      rating_raw = le;
      rating = le';
      grade = floor_label-LabelLe n m policy.grades le';
      badge =
          withheld-LabelLe policy.badges _ _ _ _ (blocks_badge-Covered hits hits' c)
            (floor_label-LabelLe n m policy.badges le');
      status = refl;
    }

    empty_alike : (xs ys : List (R2Category × F)) → Both ScoreLe xs ys → is_empty xs ≡ is_empty ys
    empty_alike [] [] h = refl
    empty_alike [] (y ∷ ys) h = absurd h
    empty_alike (x ∷ xs) [] h = absurd h
    empty_alike (x ∷ xs) (y ∷ ys) h = refl

    pub raw_coverage_alike :
        (t u : Totals F) → TotalsLe t u → raw_coverage policy t ≡ raw_coverage policy u
    unfolding raw_coverage
    raw_coverage_alike t u k = cc (k.applicable, k.measured)

    pub rate-RatedLe :
        (hits hits' : List GateHit) (t u : Totals F) (xs ys : List (R2Category × F)) (a b : Rated F)
        → Covered hits hits'
        → TotalsLe t u
        → Both ScoreLe xs ys
        → rate policy hits t xs ≡ ok a
        → rate policy hits' u ys ≡ ok b
        → RatedLe policy a b
    unfolding rate
    rate-RatedLe hits hits' t u xs ys a b c k h p q =
        let mean = mean_of-Below xs ys h in
        let rating = apply_caps_mono _ _ hits hits' (half_up_mono _ _ mean.1) c in
        let cover = raw_coverage_alike t u k in
        let x = mean_of policy xs in
        let y = mean_of policy ys in
        let n = apply_caps (half_up policy x) hits in
        let m = apply_caps (half_up policy y) hits' in
        choose-RatedLe (fl.lt (raw_coverage policy t) policy.evidence_min_coverage || is_empty xs)
          (fl.lt (raw_coverage policy u) policy.evidence_min_coverage || is_empty ys)
          (fl.nonzero (fl.sum (weights_of policy xs))) (fl.nonzero (fl.sum (weights_of policy ys)))
          (fl.lt (raw_coverage policy t) policy.canonical_min_coverage || t.any_error)
          (fl.lt (raw_coverage policy u) policy.canonical_min_coverage || u.any_error)
          (unrated policy) (degraded_rating policy x n) (degraded_rating policy y m)
          (full_rating policy hits x n) (full_rating policy hits' y m)
          (cc (cover, empty_alike xs ys h)) (cc (weights_alike xs ys h)) (cc (cover, k.error))
          (record { rating_raw = tt; rating = tt; grade = tt; badge = tt; status = refl })
          (record { rating_raw = mean.1; rating = rating; grade = tt; badge = tt; status = refl })
          (full_rating-RatedLe hits hits' _ _ _ _ c mean.1 rating) p q
