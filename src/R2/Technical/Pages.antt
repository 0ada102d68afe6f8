-- ===== src/R2/Technical/Pages.antt =====
-- What `page_outcome` says of the sampled pages.
use mathlib.Core.Path.{subst, subst₂}
use scovant_core.Prelude.{
  ℕ, ◌+◌, ◌-◌, ◌≤◌, ◌<◌, String, ◌≡◌, refl, sym, ◌∙◌, ap, ◌↔◌, inl, inr, Bool, true, false, not,
  ◌&&◌, Option, none, some, List, [], ◌∷◌, length, ◌==◌, ltb, is_none, Bool-cases, Option-cases,
  arith, ok,
}
use scovant_core.Prelude.Json.{Json}
use scovant_core.Capabilities.{Capabilities, gate}
use scovant_core.R2.Outcome.{
  Outcome, OutcomeState, is_na, is_measured, plain, pages_consistent, failed_exceeds,
}
use scovant_core.R2.Manifest.{RuleSpec, is_page}
use scovant_core.R2.Score.Rows.{check_counts}
use scovant_core.R2.Technical.{
  Tally, no_tally, one_if, page_or_empty, add_verdict, is_walled, add_page, tally_pages, conclude,
  because, at_gate, map_option, page_outcome,
}

module _ (code : String) (measure : Json → Json → Option OutcomeState) (domain : Json)
    (skip : Bool) where
  -- the page was measured: not walled off, and the predicate gave no state of its own
  abbrev pub is_counted_page : Json → Bool
  is_counted_page page =
      not (is_walled code measure domain skip page) && is_none (measure (page_or_empty page) domain)

  abbrev pub count_measured : List Json → ℕ
  count_measured [] = 0
  count_measured (page ∷ pages) = one_if (is_counted_page page) + count_measured pages

  -- the measured pages on which the rule fired
  abbrev pub count_failed : List Json → List Bool → ℕ
  count_failed (page ∷ pages) (fired ∷ rest) =
      one_if (is_counted_page page && fired) + count_failed pages rest
  count_failed _ _ = 0

  pub record Counted (pages : List Json) (fired : List Bool) (t u : Tally) : Type 0 where
    pub measured : u.measured ≡ t.measured + count_measured pages
    pub failed : u.failed ≡ t.failed + count_failed pages fired

  add_page-counts :
      (page : Json) (fired : Bool) (t : Tally)
      → ((add_page code measure domain skip page fired t).measured
          ≡ t.measured + one_if (is_counted_page page))
        × ((add_page code measure domain skip page fired t).failed
            ≡ t.failed + one_if (is_counted_page page && fired))
  unfolding add_page add_verdict
  add_page-counts page fired t = elim (Bool-cases (is_walled code measure domain skip page)) [
    | inl e ↦ rw e (omega arith, omega arith)
    | inr e ↦ elim (Option-cases (measure (page_or_empty page) domain)) [
      | inl m ↦ rw (e, m) (refl, refl)
      | inr (s, m) ↦ elim (Bool-cases (is_na s)) [
        | inl n ↦ rw (e, m, n) (omega arith, omega arith)
        | inr n ↦ rw (e, m, n) (omega arith, omega arith)
      ]
    ]
  ]

  tally_pages-Counted :
      (pages : List Json) (fired : List Bool) (t : Tally) {u : Tally}
      → tally_pages code measure domain skip pages fired t ≡ some u
      → Counted pages fired t u
  unfolding tally_pages
  tally_pages-Counted [] [] t {u} h =
      let here : t ≡ u = cc in
      record {
        measured = ap (λ x. x.measured) (sym here) ∙ omega arith;
        failed = ap (λ x. x.failed) (sym here) ∙ omega arith;
      }
  tally_pages-Counted [] (f ∷ fs) t h = absurd cc
  tally_pages-Counted (p ∷ ps) [] t h = absurd cc
  tally_pages-Counted (p ∷ ps) (f ∷ fs) t h =
      let (m, k) = add_page-counts p f t in
      let rest = tally_pages-Counted ps fs (add_page code measure domain skip p f t) h in
      record { measured = omega (arith, m, rest.measured); failed = omega (arith, k, rest.failed) }

  failed-le-measured :
      (pages : List Json) (fired : List Bool) → count_failed pages fired ≤ count_measured pages
  failed-le-measured [] fired = omega arith
  failed-le-measured (p ∷ ps) [] = omega arith
  failed-le-measured (p ∷ ps) (f ∷ fs) =
      let rest = failed-le-measured ps fs in
      elim (Bool-cases (is_counted_page p)) [
        | inl e ↦ elim (Bool-cases f) [
          | inl z ↦ rw (e, z) (omega (arith, rest))
          | inr z ↦ rw (e, z) (omega (arith, rest))
        ]
        | inr e ↦ rw e (omega (arith, rest))
      ]

-- What an outcome says of `measured` pages, `failed` of them failed.
pub record IsVerdict (measured failed : ℕ) (o : Outcome) : Type 0 where
  pub fails : (o.state ≡ OutcomeState.fail) ↔ (0 < failed)
  pub passes : (o.state ≡ OutcomeState.pass) ↔ ((0 < measured) × (failed ≡ 0))
  pub accepted : pages_consistent o ≡ ok tt
  pub checked : (spec : RuleSpec) → is_page spec.scope ≡ true → check_counts spec o ≡ ok tt

unmeasured-IsVerdict :
    (code : String) (s : OutcomeState) (reason : String) (m k : ℕ)
    → is_measured s ≡ false
    → m ≡ 0
    → k ≤ m
    → IsVerdict m k (because code s reason)
unfolding pages_consistent check_counts
unmeasured-IsVerdict code s reason m k u z le = record {
  fails = (λ h. let v = rw h at u in absurd cc, λ h. absurd (omega (arith, z, le, h)));
  passes = (λ h. let v = rw h at u in absurd cc, λ h. absurd (omega (arith, z, h.0)));
  accepted = refl;
  checked = λ spec p. rw (p, u) refl;
}

abbrev paged : String → OutcomeState → ℕ → ℕ → Outcome
paged code s m k = record (plain code s "") { pages_measured = some m; pages_failed = some k }

pass-IsVerdict :
    (code : String) (m k : ℕ)
    → 0 < m
    → (k == 0) ≡ true
    → IsVerdict m k (paged code OutcomeState.pass m k)
unfolding pages_consistent failed_exceeds check_counts
pass-IsVerdict code m k lt z =
    let none_failed : k ≡ 0 = ground arith in
    let some_measured : (m == 0) ≡ false = ground arith in
    let bounded : ltb m k ≡ false = ground arith in
    record {
      fails = (λ h. absurd cc, λ h. absurd (omega (arith, none_failed, h)));
      passes = (λ h. (lt, none_failed), λ h. refl);
      accepted = rw bounded refl;
      checked = λ spec p. rw (p, some_measured, z) refl;
    }

fail-IsVerdict :
    (code : String) (m k : ℕ)
    → 0 < m
    → k ≤ m
    → (k == 0) ≡ false
    → IsVerdict m k (paged code OutcomeState.fail m k)
unfolding pages_consistent failed_exceeds check_counts
fail-IsVerdict code m k lt le z =
    let some_failed : 0 < k = ground arith in
    let some_measured : (m == 0) ≡ false = ground arith in
    let bounded : ltb m k ≡ false = ground arith in
    record {
      fails = (λ h. some_failed, λ h. refl);
      passes = (λ h. absurd cc, λ h. absurd (omega (arith, some_failed, h.1)));
      accepted = rw bounded refl;
      checked = λ spec p. rw (p, some_measured, z) refl;
    }

conclude-IsVerdict :
    (code : String) (n : ℕ) (t : Tally)
    → t.failed ≤ t.measured
    → IsVerdict t.measured t.failed (conclude code n t)
unfolding conclude
conclude-IsVerdict code n t le = elim (Bool-cases (t.measured == 0)) [
  | inr m ↦
      let some_measured : 0 < t.measured = ground arith in
      elim (Bool-cases (t.failed == 0)) [
        | inl z ↦ rw (m, z) (pass-IsVerdict code t.measured t.failed some_measured z)
        | inr z ↦ rw (m, z) (fail-IsVerdict code t.measured t.failed some_measured le z)
      ]
  | inl m ↦
      let none_measured : t.measured ≡ 0 = ground arith in
      elim (Bool-cases (not (t.na == 0) && t.na == n - t.blocked)) [
        | inl a ↦ rw (m, a) (unmeasured-IsVerdict code OutcomeState.na _ _ _ refl none_measured le)
        | inr a ↦ elim (Bool-cases (t.blocked == 0)) [
          | inl b ↦
              rw (m, a, b)
                (unmeasured-IsVerdict code OutcomeState.not_measured _ _ _ refl none_measured le)
          | inr b ↦
              rw (m, a, b)
                (unmeasured-IsVerdict code OutcomeState.not_measured _ _ _ refl none_measured le)
        ]
      ]
]

unwrap :
    (f : Tally → Outcome) (t : Option Tally) {o : Outcome}
    → map_option f t ≡ some o
    → (u : Tally) × (t ≡ some u) × (f u ≡ o)
unwrap f none h = absurd cc
unwrap f (some u) h = (u, refl, cc)

-- The outcome of a page rule whose predicate runs: it is FAIL exactly if the rule fired on a measured
-- page, and PASS exactly if some page was measured and it fired on none of them, where a page is
-- measured if it is not walled off and the predicate gives it no state. The class takes the outcome's
-- page counts, and so does the check of `score_r2` for every page rule.
pub page_outcome-IsVerdict :
    (code : String) (measure : Json → Json → Option OutcomeState) (pages : List Json)
    (domain : Json) (fired : List Bool) (skip : Bool) (caps : Option Capabilities) {o : Outcome}
    → gate code caps ≡ none
    → page_outcome code (some measure) pages domain fired skip caps ≡ some o
    → IsVerdict
        (count_measured code measure domain skip pages)
        (count_failed code measure domain skip pages fired)
        o
unfolding page_outcome
page_outcome-IsVerdict code measure pages domain fired skip caps {o} g h =
    let loop = tally_pages code measure domain skip pages fired no_tally in
    let open_gate =
      ap (λ x. at_gate code (λ o. some o) x (map_option (conclude code (length pages)) loop)) g in
    let (u, q, e) = unwrap (conclude code (length pages)) loop (sym open_gate ∙ h) in
    let c = tally_pages-Counted code measure domain skip pages fired no_tally q in
    let bound = failed-le-measured code measure domain skip pages fired in
    let v = conclude-IsVerdict code (length pages) u (omega (arith, c.measured, c.failed, bound)) in
    let m : u.measured ≡ count_measured code measure domain skip pages =
      omega (arith, c.measured) in
    let k : u.failed ≡ count_failed code measure domain skip pages fired =
      omega (arith, c.failed) in
    subst (IsVerdict _ _) e (subst₂ (λ a b. IsVerdict a b (conclude code (length pages) u)) m k v)
