-- ===== src/R2/Evaluate/Outcomes.antt =====
-- The outcomes that Technical Readiness gives to the score: each of the manifest, one for a rule.
use mathlib.Core.Path.{subst}
use scovant_core.Prelude.{
  String, ◌≡◌, refl, sym, ap, ◌∙◌, inl, inr, Bool, false, ◌||◌, Option, none, some, List, [], ◌∷◌,
  ◌++◌, All, All-append, Both, Bool-cases, or_false, is_some, str_eq, str_eq_sym, eq_iff, contains,
  repeats, keys, lookup, insert, arith,
}
use scovant_core.Prelude.Json.{Json}
use scovant_core.Rules.{CoreRule, MeasureCtx}
use scovant_core.R2.Outcome.{Outcome}
use scovant_core.R2.Manifest
use scovant_core.R2.Manifest.{Manifest, RuleSpec}
use scovant_core.R2.Score.Index.{IsListed, IsDistinct}
use scovant_core.R2.Technical.{
  gate_robots, gate_robots_spec, OutcomeRow, outcome_from_row, derived_gate, listed,
  technical_outcomes,
}
use scovant_core.R2.Technical.Built.{core_spec}
use scovant_core.R2.Evaluate.{index_rows}
use scovant_core.R2.Evaluate.Checked.{Passes, Fits, no_counts-Passes}

absorb : (a b c : Bool) → a ≡ c → (a || b) ≡ ((a || b) || c)
absorb a b c h = ground arith

or_assoc : (a b c : Bool) → (a || (b || c)) ≡ (a || b || c)
or_assoc a b c = ground arith

module _ (m : Manifest) where
  -- an outcome that the score takes, under its key
  pub record Entry (entry : String × Outcome) : Type 0 where
    pub carries : entry.1.rule_id ≡ entry.0
    pub apart : str_eq gate_robots entry.0 ≡ false
    pub passes : (s : RuleSpec) → Manifest.get m entry.0 ≡ some s → Passes s entry.1

  pub record IsIndex (d : List (String × Outcome)) : Type 0 where
    pub entries : All Entry d
    pub once : repeats (keys d) ≡ false

  contains-insert :
      (k x : String) (o : Outcome) (d : List (String × Outcome))
      → contains (keys (insert k o d)) x ≡ (contains (keys d) x || str_eq k x)
  contains-insert k x o [] = ground arith
  contains-insert k x o ((j, p) ∷ d) = elim (Bool-cases (str_eq j k)) [
    | inl e ↦ rw e (
        absorb (str_eq j x) (contains (keys d) x) (str_eq k x)
          (ap (λ s. str_eq s x) ((eq_iff j k).0 e)))
    | inr e ↦
        rw (e, contains-insert k x o d) (or_assoc (str_eq j x) (contains (keys d) x) (str_eq k x))
  ]

  insert-Entry :
      (k : String) (o : Outcome) (d : List (String × Outcome))
      → Entry (k, o)
      → All Entry d
      → All Entry (insert k o d)
  insert-Entry k o [] e es = (e, tt)
  insert-Entry k o ((j, p) ∷ d) e es = elim (Bool-cases (str_eq j k)) [
    | inl q ↦ rw q (subst (λ i. Entry (i, o)) (sym ((eq_iff j k).0 q)) e, es.1)
    | inr q ↦ rw q (es.0, insert-Entry k o d e es.1)
  ]

  repeats-insert :
      (k : String) (o : Outcome) (d : List (String × Outcome))
      → repeats (keys d) ≡ false
      → repeats (keys (insert k o d)) ≡ false
  repeats-insert k o [] h = refl
  repeats-insert k o ((j, p) ∷ d) h = elim (Bool-cases (str_eq j k)) [
    | inl e ↦ rw e h
    | inr e ↦
        let (new, rest) = or_false (contains (keys d) j) (repeats (keys d)) h in
        rw (e, contains-insert k j o d, new, str_eq_sym j k e, repeats-insert k o d rest) refl
  ]

  -- a rule that the manifest knows, with a code that is not the gate's
  pub record IsKnown (r : CoreRule) : Type 0 where
    pub known : Manifest.get m r.code ≡ some (core_spec r)
    pub apart : str_eq gate_robots r.code ≡ false

  fits-Entry :
      (domain : Json) (pages : List Json) (ctx : MeasureCtx) (r : CoreRule) (row : OutcomeRow)
      → IsKnown r
      → Fits domain pages ctx r row
      → Entry (row.outcome.rule_id, outcome_from_row row)
  fits-Entry domain pages ctx r row k f =
      let stored = sym f.stored in
      record {
        carries = f.carries ∙ stored;
        apart = subst (λ c. str_eq gate_robots c ≡ false) stored k.apart;
        passes = λ s g.
            let both : some (core_spec r) ≡ some s = sym k.known ∙ ap (Manifest.get m) stored ∙ g in
            let same : core_spec r ≡ s = cc in
            subst (λ t. Passes t (outcome_from_row row)) same f.passes;
      }

  pub index_rows-IsIndex :
      (domain : Json) (pages : List Json) (ctx : MeasureCtx) (rs : List CoreRule)
      (rows : List OutcomeRow) (d : List (String × Outcome))
      → All IsKnown rs
      → Both (Fits domain pages ctx) rs rows
      → IsIndex d
      → IsIndex (index_rows d rows)
  unfolding index_rows
  index_rows-IsIndex domain pages ctx [] [] d ks fs i = i
  index_rows-IsIndex domain pages ctx [] (row ∷ rows) d ks fs i = absurd fs
  index_rows-IsIndex domain pages ctx (r ∷ rs) [] d ks fs i = absurd fs
  index_rows-IsIndex domain pages ctx (r ∷ rs) (row ∷ rows) d ks fs i =
      index_rows-IsIndex domain pages ctx rs rows _ ks.1 fs.1 (record {
        entries =
            insert-Entry row.outcome.rule_id (outcome_from_row row) d
              (fits-Entry domain pages ctx r row ks.0 fs.0) i.entries;
        once = repeats-insert row.outcome.rule_id (outcome_from_row row) d i.once;
      })

  -- an outcome that the score takes
  pub record IsTaken (o : Outcome) : Type 0 where
    pub in_manifest : IsListed m o
    pub passes : (s : RuleSpec) → Manifest.get m o.rule_id ≡ some s → Passes s o

  listed-IsTaken : (d : List (String × Outcome)) → All Entry d → All IsTaken (listed m d)
  listed-IsTaken [] es = tt
  listed-IsTaken ((k, o) ∷ d) es = elim (Bool-cases (is_some (Manifest.get m k))) [
    | inl e ↦ rw e (
      record {
        in_manifest = ap (λ i. is_some (Manifest.get m i)) es.0.carries ∙ e;
        passes = λ s g. es.0.passes s (ap (Manifest.get m) (sym es.0.carries) ∙ g);
      },
      listed-IsTaken d es.1,
    )
    | inr e ↦ rw e (listed-IsTaken d es.1)
  ]

  -- the gate's outcome, behind the listed ones
  module _ (g : Outcome) (gate : g.rule_id ≡ gate_robots) where
    listed-apart :
        (k : String) (d : List (String × Outcome))
        → str_eq gate_robots k ≡ false
        → contains (keys d) k ≡ false
        → All Entry d
        → All (λ p. str_eq k p.rule_id ≡ false) (listed m d ++ g ∷ [])
    listed-apart k [] a c es = (ap (str_eq k) gate ∙ str_eq_sym gate_robots k a, tt)
    listed-apart k ((j, o) ∷ d) a c es =
        let (differs, later) = or_false (str_eq j k) (contains (keys d) k) c in
        elim (Bool-cases (is_some (Manifest.get m j))) [
          | inl e ↦
              rw e
                (ap (str_eq k) es.0.carries ∙ str_eq_sym j k differs, listed-apart k d a later es.1)
          | inr e ↦ rw e (listed-apart k d a later es.1)
        ]

    listed-IsDistinct :
        (d : List (String × Outcome))
        → All Entry d
        → repeats (keys d) ≡ false
        → IsDistinct (listed m d ++ g ∷ [])
    listed-IsDistinct [] es h = (tt, tt)
    listed-IsDistinct ((k, o) ∷ d) es h =
        let (new, rest) = or_false (contains (keys d) k) (repeats (keys d)) h in
        elim (Bool-cases (is_some (Manifest.get m k))) [
          | inl e ↦ rw e (
            subst (λ i. All (λ p. str_eq i p.rule_id ≡ false) (listed m d ++ g ∷ []))
                (sym es.0.carries) (listed-apart k d es.0.apart new es.1),
            listed-IsDistinct d es.1 rest,
          )
          | inr e ↦ rw e (listed-IsDistinct d es.1 rest)
        ]

  derived-rule_id :
      (source : Option Outcome) → (derived_gate gate_robots source).rule_id ≡ gate_robots
  unfolding derived_gate
  derived-rule_id none = refl
  derived-rule_id (some o) = refl

  derived-no_counts :
      (source : Option Outcome) → (derived_gate gate_robots source).pages_measured ≡ none
  unfolding derived_gate
  derived-no_counts none = refl
  derived-no_counts (some o) = refl

  gate-IsTaken :
      (source : Option Outcome)
      → Manifest.get m gate_robots ≡ some gate_robots_spec
      → IsTaken (derived_gate gate_robots source)
  gate-IsTaken source known =
      let found = ap (Manifest.get m) (derived-rule_id source) ∙ known in
      record {
        in_manifest = rw found refl;
        passes = λ s g.
            let both : some gate_robots_spec ≡ some s = sym found ∙ g in
            let same : gate_robots_spec ≡ s = cc in
            subst (λ t. Passes t (derived_gate gate_robots source)) same
              (no_counts-Passes gate_robots_spec (derived_gate gate_robots source) refl
                (derived-no_counts source));
      }

  -- the outcomes that `technical_outcomes` gives
  pub technical_outcomes-IsTaken :
      (d : List (String × Outcome))
      → IsIndex d
      → Manifest.get m gate_robots ≡ some gate_robots_spec
      → All IsTaken (technical_outcomes d m) × IsDistinct (technical_outcomes d m)
  unfolding technical_outcomes
  technical_outcomes-IsTaken d i known =
      let source = lookup "AI_CRAWLER_BLOCKED" d in
      (
        All-append IsTaken (listed m d) _ (listed-IsTaken d i.entries)
            (gate-IsTaken source known, tt),
        listed-IsDistinct (derived_gate gate_robots source) (derived-rule_id source) d i.entries
            i.once,
      )
