-- ===== src/R2/Score/Monotone/Rows.antt =====
-- The rows of two runs, when the outcomes of the second do at least as well.
use mathlib.Core.Path.{subst₂}
use scovant_core.Prelude.{
  String, ◌≡◌, refl, sym, ◌∙◌, ap, inl, inr, Bool, true, false, Option, none, some, List, [], ◌∷◌,
  Both, Bool-cases, arith, if◌then◌else◌, is_none, str_eq, lookup, insert, Result, ok, >>=-eq-ok,
}
use scovant_core.R2.Outcome.{Outcome, OutcomeState, plain, pages_consistent}
use scovant_core.R2.Policy.{ScoringPolicy}
use scovant_core.R2.Manifest.{Manifest, RuleSpec}
use scovant_core.R2.Score.Rows.{
  ScoreError, Row, check_counts, index_outcomes, applies, settle, is_counted, build_rows,
}
use scovant_core.R2.Score.Value.{Improves}
use scovant_core.R2.Score.Monotone.Defs.{RowLe}

-- `t` is what became of an outcome `s` that the class accepts.
pub record OutcomeLe (s t : Outcome) : Type 0 where
  pub improves : Improves s t
  pub accepted : pages_consistent s ≡ ok tt

pub record EntryLe (p q : String × Outcome) : Type 0 where
  pub key : p.0 ≡ q.0
  pub outcome : OutcomeLe p.1 q.1

abbrev FoundLe : Option Outcome → Option Outcome → Type 0
FoundLe none none = Unit
FoundLe (some s) (some t) = OutcomeLe s t
FoundLe _ _ = ⊥

lookup-FoundLe :
    (k : String) (d e : List (String × Outcome))
    → Both EntryLe d e
    → FoundLe (lookup k d) (lookup k e)
lookup-FoundLe k [] [] h = tt
lookup-FoundLe k [] (q ∷ e) h = absurd h
lookup-FoundLe k (p ∷ d) [] h = absurd h
lookup-FoundLe k ((i, s) ∷ d) ((j, t) ∷ e) h =
    let same : str_eq i k ≡ str_eq j k = ap (λ x. str_eq x k) h.0.key in
    elim (Bool-cases (str_eq i k)) [
      | inl q ↦ rw (q, (sym same ∙ q)) h.0.outcome
      | inr q ↦ rw (q, (sym same ∙ q)) (lookup-FoundLe k d e h.1)
    ]

insert-EntryLe :
    (k l : String) (s t : Outcome) (d e : List (String × Outcome))
    → k ≡ l
    → OutcomeLe s t
    → Both EntryLe d e
    → Both EntryLe (insert k s d) (insert l t e)
insert-EntryLe k l s t [] [] q o h = (record { key = q; outcome = o }, tt)
insert-EntryLe k l s t [] (y ∷ e) q o h = absurd h
insert-EntryLe k l s t (x ∷ d) [] q o h = absurd h
insert-EntryLe k l s t ((i, x) ∷ d) ((j, y) ∷ e) q o h =
    let same : str_eq i k ≡ str_eq j l = cc (h.0.key, q) in
    elim (Bool-cases (str_eq i k)) [
      | inl z ↦ rw (z, (sym same ∙ z)) (record { key = h.0.key; outcome = o }, h.1)
      | inr z ↦ rw (z, (sym same ∙ z)) (h.0, insert-EntryLe k l s t d e q o h.1)
    ]

pub index_outcomes-EntryLe :
    (manifest : Manifest) (os os' : List Outcome) (d e : List (String × Outcome))
    {d' e' : List (String × Outcome)}
    → Both OutcomeLe os os'
    → Both EntryLe d e
    → index_outcomes manifest os d ≡ ok d'
    → index_outcomes manifest os' e ≡ ok e'
    → Both EntryLe d' e'
unfolding index_outcomes
index_outcomes-EntryLe manifest [] [] d e {d'} {e'} h k p q =
    let here : d ≡ d' = cc in let there : e ≡ e' = cc in subst₂ (Both EntryLe) here there k
index_outcomes-EntryLe manifest [] (t ∷ ts) d e h k p q = absurd h
index_outcomes-EntryLe manifest (s ∷ ss) [] d e h k p q = absurd h
index_outcomes-EntryLe manifest (s ∷ ss) (t ∷ ts) d e h k p q =
    index_outcomes-EntryLe manifest ss ts (insert s.rule_id s d) (insert t.rule_id t e) h.1
      (insert-EntryLe _ _ s t d e h.0.improves.same_rule h.0 k) (ground arith) (ground arith)

plain-OutcomeLe-na :
    (id : String) → OutcomeLe (plain id OutcomeState.na "") (plain id OutcomeState.na "")
unfolding pages_consistent
plain-OutcomeLe-na id = record {
  improves = record {
    same_rule = refl;
    same_key = refl;
    same_pages = refl;
    state = tt;
    failed = tt;
  };
  accepted = refl;
}

plain-OutcomeLe-unknown :
    (id : String) → OutcomeLe (plain id OutcomeState.unknown "") (plain id OutcomeState.unknown "")
unfolding pages_consistent
plain-OutcomeLe-unknown id = record {
  improves = record {
    same_rule = refl;
    same_key = refl;
    same_pages = refl;
    state = tt;
    failed = tt;
  };
  accepted = refl;
}

unknown_alike :
    (spec : RuleSpec) (f g : Option Outcome) (xs ys : List String)
    → FoundLe f g
    → xs ≡ ys
    → (if is_none f then spec.rule_id ∷ xs else xs) ≡ (if is_none g then spec.rule_id ∷ ys else ys)
unknown_alike spec none none xs ys h q = cc
unknown_alike spec none (some t) xs ys h q = absurd h
unknown_alike spec (some s) none xs ys h q = absurd h
unknown_alike spec (some s) (some t) xs ys h q = q

module _ {F : Type 0} (policy : ScoringPolicy F) (profile : String) where
  if-OutcomeLe :
      (b : Bool) (s t u v : Outcome) {x y : Outcome}
      → OutcomeLe s t
      → OutcomeLe u v
      → (if b then s else u) ≡ x
      → (if b then t else v) ≡ y
      → OutcomeLe x y
  if-OutcomeLe true s t u v h k p q = subst₂ OutcomeLe p q h
  if-OutcomeLe false s t u v h k p q = subst₂ OutcomeLe p q k

  settle-OutcomeLe :
      (spec : RuleSpec) (f g : Option Outcome) {s t : Outcome}
      → FoundLe f g
      → settle policy profile spec f ≡ ok s
      → settle policy profile spec g ≡ ok t
      → OutcomeLe s t
  unfolding settle
  settle-OutcomeLe spec none none h p q =
      if-OutcomeLe (applies policy profile spec) _ _ _ _ (plain-OutcomeLe-unknown spec.rule_id)
        (plain-OutcomeLe-na spec.rule_id) (cc) (cc)
  settle-OutcomeLe spec none (some t) h p q = absurd h
  settle-OutcomeLe spec (some s) none h p q = absurd h
  settle-OutcomeLe spec (some s) (some t) h p q =
      let (_, _, p') = >>=-eq-ok (check_counts spec s) _ p in
      let (_, _, q') = >>=-eq-ok (check_counts spec t) _ q in
      if-OutcomeLe (applies policy profile spec) s t _ _ h (plain-OutcomeLe-na spec.rule_id) (cc)
        (cc)

  pub record RowsLe (a b : List Row × List String) : Type 0 where
    pub rows : Both RowLe a.0 b.0
    pub unknown : a.1 ≡ b.1

  finish :
      (x y : List Row × List String) {a b : List Row × List String}
      → ◌≡◌ {A = Result ScoreError (List Row × List String)} (ok x) (ok a)
      → ◌≡◌ {A = Result ScoreError (List Row × List String)} (ok y) (ok b)
      → RowsLe x y
      → RowsLe a b
  finish x y {a} {b} p q h =
      let here : x ≡ a = cc in let there : y ≡ b = cc in subst₂ RowsLe here there h

  pub build_rows-RowsLe :
      (d e : List (String × Outcome)) (specs : List RuleSpec) {a b : List Row × List String}
      → Both EntryLe d e
      → build_rows policy profile d specs ≡ ok a
      → build_rows policy profile e specs ≡ ok b
      → RowsLe a b
  unfolding build_rows
  build_rows-RowsLe d e [] h p q =
      finish ([], []) ([], []) (cc) (cc) (record { rows = tt; unknown = refl })
  build_rows-RowsLe d e (spec ∷ specs) h p q = elim (Bool-cases (is_counted policy profile spec)) [
    | inr z ↦ build_rows-RowsLe d e specs h (ground arith) (ground arith)
    | inl z ↦
        let (s, ps, p') =
          >>=-eq-ok (settle policy profile spec (lookup spec.rule_id d)) _
            (rw (z, build_rows) at p) in
        let (t, qs, q') =
          >>=-eq-ok (settle policy profile spec (lookup spec.rule_id e)) _
            (rw (z, build_rows) at q) in
        let (x, px, p'') = >>=-eq-ok (build_rows policy profile d specs) _ p' in
        let (y, qy, q'') = >>=-eq-ok (build_rows policy profile e specs) _ q' in
        let found = lookup-FoundLe spec.rule_id d e h in
        let row = settle-OutcomeLe spec _ _ found ps qs in
        let rest = build_rows-RowsLe d e specs h px qy in
        finish _ _ p'' q'' (record {
          rows = (
            record { same_spec = refl; outcome = row.improves; accepted = row.accepted },
            rest.rows,
          );
          unknown = unknown_alike spec _ _ x.1 y.1 found rest.unknown;
        })
  ]
