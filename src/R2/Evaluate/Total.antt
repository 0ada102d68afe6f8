-- ===== src/R2/Evaluate/Total.antt =====
-- Every rule gets a row.
use scovant_core.Prelude.{
  ℕ, String, ◌≡◌, refl, ◌∙◌, ap, inl, inr, Bool, true, false, not, ◌&&◌, Option, none, some, List,
  [], ◌∷◌, map, any, length, is_empty, ◌==◌, ◌-◌, if◌then◌else◌, Bool-cases, ok,
}
use scovant_core.Prelude.Sort.{sort_by}
use scovant_core.Prelude.Json.{Json, object, no_more}
use scovant_core.Capabilities.{Capabilities, gate}
use scovant_core.Capabilities.Derived.{AreReadable, derive_capabilities-AreDerived}
use scovant_core.Rules.{CoreRule, MeasureCtx}
use scovant_core.R2.Outcome.{Outcome, OutcomeState}
use scovant_core.R2.Technical.{
  Tally, no_tally, add_page, tally_pages, conclude, because, at_gate, map_option, judged,
  domain_measured, domain_outcome, page_outcome, OutcomeRow,
}
use scovant_core.R2.Evaluate.{
  findings_of, fired_on, see_pages, rule_outcome, row_of, cons_row, rows_from, by_code,
  ordered_rules, clean_pages, clean_domain, severity_name, rule_rows,
}

-- an outcome that carries the code
abbrev pub Carries : String → Option Outcome → Type 0
Carries code o = (x : Outcome) × (o ≡ some x) × (x.rule_id ≡ code)

if-Carries :
    (code : String) (b : Bool) (o p : Option Outcome)
    → Carries code o
    → Carries code p
    → Carries code (if b then o else p)
if-Carries code true o p h k = h
if-Carries code false o p h k = k

conclude-rule_id : (code : String) (n : ℕ) (t : Tally) → (conclude code n t).rule_id ≡ code
unfolding conclude
conclude-rule_id code n t = elim (Bool-cases (t.measured == 0)) [
  | inr m ↦ rw m refl
  | inl m ↦ elim (Bool-cases (not (t.na == 0) && t.na == n - t.blocked)) [
    | inl a ↦ rw (m, a) refl
    | inr a ↦ elim (Bool-cases (t.blocked == 0)) [
      | inl b ↦ rw (m, a, b) refl
      | inr b ↦ rw (m, a, b) refl
    ]
  ]
]

tally_pages-some :
    (code : String) (measure : Json → Json → Option OutcomeState) (domain : Json) (skip : Bool)
    (f : Json → Bool) (pages : List Json) (t : Tally)
    → (u : Tally) × (tally_pages code measure domain skip pages (map f pages) t ≡ some u)
unfolding tally_pages
tally_pages-some code measure domain skip f [] t = (t, refl)
tally_pages-some code measure domain skip f (p ∷ ps) t =
    tally_pages-some code measure domain skip f ps (add_page code measure domain skip p (f p) t)

at_gate-Carries :
    (code : String) (g : Option (OutcomeState × String)) (o : Option Outcome)
    → Carries code o
    → Carries code (at_gate code (λ x. some x) g o)
at_gate-Carries code none o h = h
at_gate-Carries code (some hit) o h = (because code hit.0 hit.1, refl, refl)

page_outcome-Carries :
    (code : String) (measure : Json → Json → Option OutcomeState) (pages : List Json)
    (domain : Json) (f : Json → Bool) (skip : Bool) (caps : Option Capabilities)
    → Carries code (page_outcome code (some measure) pages domain (map f pages) skip caps)
unfolding page_outcome
page_outcome-Carries code measure pages domain f skip caps =
    let (u, q) = tally_pages-some code measure domain skip f pages no_tally in
    at_gate-Carries code (gate code caps) _ (
      conclude code (length pages) u,
      ap (map_option (conclude code (length pages))) q,
      conclude-rule_id code (length pages) u,
    )

judged-rule_id :
    (code : String) (v : Option OutcomeState) (fired : Bool) → (judged code v fired).rule_id ≡ code
judged-rule_id code none fired = refl
judged-rule_id code (some s) fired = refl

measured-rule_id :
    (code : String) (measure : Json → Option OutcomeState) (domain : Json) (fired : Bool)
    (some_pages : Bool)
    → (domain_measured code measure domain fired some_pages).rule_id ≡ code
measured-rule_id code measure domain fired true = judged-rule_id code (measure domain) fired
measured-rule_id code measure domain fired false = refl

at_gate-rule_id :
    (code : String) (g : Option (OutcomeState × String)) (o : Outcome)
    → o.rule_id ≡ code
    → (at_gate code (λ x. x) g o).rule_id ≡ code
at_gate-rule_id code none o h = h
at_gate-rule_id code (some hit) o h = refl

domain_outcome-rule_id :
    (code : String) (measure : Json → Option OutcomeState) (domain : Json) (fired some_pages : Bool)
    (caps : Option Capabilities)
    → (domain_outcome code (some measure) domain fired some_pages caps).rule_id ≡ code
unfolding domain_outcome
domain_outcome-rule_id code measure domain fired some_pages caps =
    at_gate-rule_id code (gate code caps) _ (measured-rule_id code measure domain fired some_pages)

module _ (domain : Json) (pages : List Json) (ctx : MeasureCtx) where
  pub rule_outcome-Carries : (r : CoreRule) → Carries r.code (rule_outcome domain pages ctx r)
  unfolding rule_outcome
  rule_outcome-Carries r =
      if-Carries r.code r.is_domain _ _
        (
          _,
          refl,
          domain_outcome-rule_id r.code (λ j. r.measure (object no_more) j ctx) domain
              (any (λ b. b) (fired_on domain r pages)) (not (is_empty pages)) ctx.capabilities,
        )
        (page_outcome-Carries r.code (λ p j. r.measure p j ctx) pages domain
          (λ p. not (is_empty (findings_of domain r p))) true ctx.capabilities)

  abbrev codes_of : List CoreRule → List String
  codes_of rs = map (λ r. r.code) rs

  abbrev ids_of : List OutcomeRow → List String
  ids_of rows = map (λ x. x.outcome.rule_id) rows

  rows_from-total :
      (rs : List CoreRule)
      → (rows : List OutcomeRow) × (rows_from domain pages ctx rs ≡ some rows)
        × (ids_of rows ≡ codes_of rs)
  unfolding rows_from
  rows_from-total [] = ([], refl, refl)
  rows_from-total (r ∷ rs) =
      let (o, p, e) = rule_outcome-Carries r in
      let (rows, q, es) = rows_from-total rs in
      let row : OutcomeRow = record {
        outcome = o;
        severity_seen = severity_name domain (see_pages domain r none pages);
      } in
      let here =
        ap
          (λ x.
            cons_row domain pages ctx (row_of domain pages ctx r x) (rows_from domain pages ctx rs))
          p in
      let there = ap (cons_row domain pages ctx (some row)) q in
      (row ∷ rows, here ∙ there, cc (e, es))

-- `rule_rows` gives a row to every registered rule that is not deprecated, in the order of the codes
-- and under the rule's own code, whatever the rules report, if their bodies return, and on evidence that
-- `derive_capabilities` can read: the signals of a page that is no wall and shows no offer, and the
-- domain's blocks on UCP and on agent payments, are dictionaries or falsy.
pub rule_rows_total :
    (show : Json → String) (rules : List CoreRule) (pages : List Json) (domain : Json)
    (site_category : String) (defaulted : Option (List String))
    → AreReadable (clean_pages pages) (clean_domain domain)
    → (rows : List OutcomeRow) × (rule_rows show rules pages domain site_category defaulted
        ≡ ok rows)
      × (map (λ x. x.outcome.rule_id) rows
          ≡ map (λ r. r.code) (sort_by by_code (ordered_rules rules)))
unfolding rule_rows
rule_rows_total show rules pages domain site_category defaulted h =
    let c =
      derive_capabilities-AreDerived show site_category (clean_pages pages) (clean_domain domain)
        h in
    let ctx : MeasureCtx = record {
      site_category = some site_category;
      defaulted = defaulted;
      capabilities = some c.caps;
    } in
    let (rows, made, ids) =
      rows_from-total (clean_domain domain) (clean_pages pages) ctx
        (sort_by by_code (ordered_rules rules)) in
    (rows, rw (c.derived, made) refl, ids)
