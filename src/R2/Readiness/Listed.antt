-- ===== src/R2/Readiness/Listed.antt =====
-- The two lists that a report has of the outcomes.
use scovant_core.Prelude.{
  String, ◌≡◌, refl, inl, inr, Bool, true, false, ◌&&◌, Option, none, some, List, [], ◌∷◌, map,
  keep, All, All_map, In, Bool-cases,
}
use scovant_core.R2.Outcome.{Outcome}
use scovant_core.R2.Manifest
use scovant_core.R2.Manifest.{Manifest, RuleSpec}
use scovant_core.R2.Evaluate.{TechnicalRun}
use scovant_core.R2.Readiness.{
  is_unmeasured, counts_for, is_reported, reason_of, reason_or, cons_outcome, reported_outcomes,
  technical_block, NotMeasured, TechnicalOutcome,
}

abbrev pub entry_of : TechnicalOutcome → NotMeasured
entry_of t = record { rule = t.rule; reason = t.reason }

both_true : (a b : Bool) → (a && b) ≡ true → (a ≡ true) × (b ≡ true)
both_true true b h = (refl, h)
both_true false b h = absurd cc

module _ (tokenizer : Bool) (defaulted : List String) where
  abbrev not_measured_of : Outcome → NotMeasured
  not_measured_of o = record { rule = o.rule_id; reason = reason_of tokenizer defaulted o }

module _ (tokenizer : Bool) (defaulted : List String) (manifest : Manifest) where
  later :
      (o : Outcome) (g : Option RuleSpec) (rest : List TechnicalOutcome) (n : NotMeasured)
      → In n (map entry_of rest)
      → In n (map entry_of (cons_outcome tokenizer defaulted manifest o g rest))
  unfolding cons_outcome
  later o none rest n h = h
  later o (some s) rest n h = inr h

  first :
      (o : Outcome) (g : Option RuleSpec) (rest : List TechnicalOutcome)
      → is_unmeasured o.state ≡ true
      → counts_for g ≡ true
      → In
          (not_measured_of tokenizer defaulted o)
          (map entry_of (cons_outcome tokenizer defaulted manifest o g rest))
  unfolding cons_outcome reason_or
  first o none rest u c = absurd cc
  first o (some s) rest u c = inl (rw u refl)

  listed :
      (os : List Outcome)
      → All
          (λ n. In n (map entry_of (reported_outcomes tokenizer defaulted manifest os)))
          (map
            (not_measured_of tokenizer defaulted)
            (keep (is_reported tokenizer defaulted manifest) os))
  unfolding reported_outcomes
  listed [] = tt
  listed (o ∷ os) =
      let g = Manifest.get manifest o.rule_id in
      let rest = reported_outcomes tokenizer defaulted manifest os in
      let deeper = All_map _ _ (later o g rest) _ (listed os) in
      elim (Bool-cases (is_reported tokenizer defaulted manifest o)) [
        | inl e ↦ let (u, c) = both_true _ _ e in rw e (first o g rest u c, deeper)
        | inr e ↦ rw e deeper
      ]

  -- The two lists of a report agree: each entry of the block's list of what was not measured is, with
  -- the same rule and the same reason, among the outcomes that `technical_report` gives beside it.
  pub technical_block-Listed :
      {F : Type 0} (run : TechnicalRun F) (site_type origin : String)
      → All
          (λ n. In n (map entry_of (reported_outcomes tokenizer defaulted manifest run.outcomes)))
          (technical_block tokenizer defaulted manifest run site_type origin).not_measured
  unfolding technical_block
  technical_block-Listed run site_type origin = listed run.outcomes
