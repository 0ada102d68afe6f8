-- ===== src/R2/Evaluate/Worst.antt =====
-- The severity that a row records.
use mathlib.Core.Path.{subst}
use scovant_core.Prelude.{
  ℕ, ◌≤◌, ltb, ◌≡◌, refl, sym, ◌∙◌, inl, inr, true, false, Option, none, some, List, [], ◌∷◌, ◌++◌,
  All, In, arith, if◌then◌else◌, Bool-cases, map,
}
use scovant_core.Prelude.Json.{Json}
use scovant_core.Models.{Severity}
use scovant_core.Rules.{CoreRule, Finding}
use scovant_core.R2.Evaluate.{
  severity_rank, picked, raise_to, see_findings, see_pages, is_skipped, findings_of,
}

-- no lower than
abbrev AtMost : Severity → Severity → Type 0
AtMost t s = severity_rank s ≤ severity_rank t

-- the severity of no item, or of one that no item exceeds
abbrev pub IsWorst : List Severity → Option Severity → Type 0
IsWorst ss none = ss ≡ []
IsWorst ss (some t) = In t ss × All (AtMost t) ss

-- the severities of the findings on the pages that are measured for the rule, in their order
abbrev pub severities : Json → CoreRule → List Json → List Severity
severities domain r [] = []
severities domain r (p ∷ ps) =
    let rest = severities domain r ps in
    if is_skipped r p
    then rest
    else map (λ f. picked r.severity f.severity) (findings_of domain r p) ++ rest

raise_all : Option Severity → List Severity → Option Severity
raise_all seen [] = seen
raise_all seen (s ∷ ss) = raise_all (raise_to seen s) ss

see_findings-raise_all :
    (rule : Severity) (seen : Option Severity) (fs : List Finding) (ss : List Severity)
    → raise_all (see_findings rule seen fs) ss
      ≡ raise_all seen (map (λ f. picked rule f.severity) fs ++ ss)
unfolding see_findings raise_all
see_findings-raise_all rule seen [] ss = refl
see_findings-raise_all rule seen (f ∷ fs) ss =
    see_findings-raise_all rule (raise_to seen (picked rule f.severity)) fs ss

see_pages-raise_all :
    (domain : Json) (r : CoreRule) (seen : Option Severity) (ps : List Json)
    → see_pages domain r seen ps ≡ raise_all seen (severities domain r ps)
unfolding see_pages raise_all
see_pages-raise_all domain r seen [] = refl
see_pages-raise_all domain r seen (p ∷ ps) = elim (Bool-cases (is_skipped r p)) [
  | inl e ↦ rw e (see_pages-raise_all domain r seen ps)
  | inr e ↦ rw e (
      see_pages-raise_all domain r (see_findings r.severity seen (findings_of domain r p)) ps
      ∙ see_findings-raise_all r.severity seen (findings_of domain r p) (severities domain r ps))
]

rises : (a b : ℕ) → ltb a b ≡ true → a ≤ b
rises a b e = ground arith

stays_above : (a b : ℕ) → ltb a b ≡ false → b ≤ a
stays_above a b e = ground arith

-- the fold from a severity that was seen
raise_all-some :
    (t : Severity) (ss : List Severity)
    → (w : Severity) × (raise_all (some t) ss ≡ some w) × IsWorst (t ∷ ss) (some w)
unfolding raise_all
raise_all-some t [] = (t, refl, (inl refl, (omega arith, tt)))
raise_all-some t (s ∷ ss) = elim (Bool-cases (ltb (severity_rank t) (severity_rank s))) [
  | inl e ↦
      let (w, q, (found, (top, rest))) = raise_all-some s ss in
      let up = rises _ _ e in (w, rw e q, (inr found, (omega arith, (top, rest))))
  | inr e ↦
      let (w, q, (found, (top, rest))) = raise_all-some t ss in
      let down = stays_above _ _ e in
      (w, rw e q, (elim found [ inl h ↦ inl h | inr h ↦ inr (inr h) ], (top, (omega arith, rest))))
]

raise_all-IsWorst : (ss : List Severity) → IsWorst ss (raise_all none ss)
unfolding raise_all
raise_all-IsWorst [] = refl
raise_all-IsWorst (s ∷ ss) =
    let (w, q, worst) = raise_all-some s ss in subst (IsWorst (s ∷ ss)) (sym q) worst

-- The severity that a row records for a rule is the worst one: where it is none, no page that is
-- measured for the rule has a finding; else a finding on such a page has it, by its own choice or by
-- the rule's, and no finding on one of these pages has a worse one.
pub see_pages-IsWorst :
    (domain : Json) (r : CoreRule) (pages : List Json)
    → IsWorst (severities domain r pages) (see_pages domain r none pages)
see_pages-IsWorst domain r pages =
    subst (IsWorst (severities domain r pages)) (sym (see_pages-raise_all domain r none pages))
      (raise_all-IsWorst (severities domain r pages))
