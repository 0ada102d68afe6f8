-- ===== src/R2/Evaluate/Returns.antt =====
-- Technical Readiness gives a result on any registered rules.
use scovant_core.Prelude.{
  String, ◌≡◌, refl, true, false, not, Option, some, List, [], ◌∷◌, All, str_eq, ok, returned,
}
use scovant_core.Prelude.Sort.{sort_by}
use scovant_core.Prelude.Sort.Kept.{All-sort_by}
use scovant_core.Prelude.Float.{Float, IsPositive}
use scovant_core.Prelude.Json.{Json}
use scovant_core.Capabilities.Derived.{AreReadable, derive_capabilities-AreDerived}
use scovant_core.Rules.{CoreRule, MeasureCtx, is_deprecated}
use scovant_core.Rules.Registered.{AreRegistered, claimed_once}
use scovant_core.R2.Manifest
use scovant_core.R2.Manifest.{Manifest, RuleSpec, rule_id_matches}
use scovant_core.R2.Technical.{technical_outcomes, gate_robots}
use scovant_core.R2.Technical.Specs.{counted_rules}
use scovant_core.R2.Technical.Built.{core_spec, IsNamed, AreNamed, Knows, technical_manifest-Knows}
use scovant_core.R2.Evaluate.{
  profile_or, by_code, ordered_rules, rule_rows, index_rows, rated, technical_readiness,
  TechnicalRun, clean_pages, clean_domain,
}
use scovant_core.R2.Evaluate.Checked.{rows_from-Fit}
use scovant_core.R2.Evaluate.Outcomes.{IsKnown, index_rows-IsIndex, technical_outcomes-IsTaken}
use scovant_core.R2.Technical.Codes.{codes_once, All-keep}
use scovant_core.R2.Evaluate.Scored.{score_r2-ok}

-- the rules with their codes are in the manifest
known :
    (m : Manifest) (rs : List CoreRule)
    → AreNamed rs
    → Knows rs m
    → All (IsKnown m) (sort_by by_code rs)
known m rs named knows = All-sort_by by_code (IsKnown m) rs (both rs knows.rules named.apart)
  where
    both :
        (qs : List CoreRule)
        → All (λ r. Manifest.get m r.code ≡ some (core_spec r)) qs
        → All (λ r. str_eq gate_robots r.code ≡ false) qs
        → All (IsKnown m) qs
    both [] k a = tt
    both (q ∷ qs) k a = (record { known = k.0; apart = a.0 }, both qs k.1 a.1)

-- Technical Readiness gives a result for rules that were registered one after the other, whose codes
-- have the form that the manifest wants and are not the gate's, and whose bodies return, whatever they
-- report and measure, on evidence that `derive_capabilities` can read: the signals of a page that is no
-- wall and shows no offer, and the domain's blocks on UCP and on agent payments, are dictionaries or
-- falsy. The manifest of the rules is made, it takes the outcomes, and `technical_readiness` raises
-- nothing. The numbers are such that a literal of two decimals that is not zero is positive, and that
-- a sum of positive numbers is not zero.
pub technical_readiness-returns :
    (show : Json → String) {F : Type 0} ⦃fl : Float F⦄ (positive : IsPositive F)
    (rules : List CoreRule)
    → AreRegistered rules
    → All (λ r. rule_id_matches r.code ≡ true) rules
    → All (λ r. str_eq gate_robots r.code ≡ false) rules
    → (pages : List Json) (domain : Json) (site_type : String) (defaulted : Option (List String))
    → AreReadable (clean_pages pages) (clean_domain domain)
    → (run : TechnicalRun F) × (technical_readiness show rules pages domain site_type defaulted
        ≡ ok run)
unfolding technical_readiness rule_rows rated
technical_readiness-returns show positive rules reg named apart pages domain site_type defaulted h =
    let counts = λ (r : CoreRule). not (is_deprecated r.maturity) in
    let fit : AreNamed (counted_rules rules) = record {
      named = All-keep counts IsNamed rules named;
      once = codes_once counts rules (claimed_once reg);
      apart = All-keep counts (λ r. str_eq gate_robots r.code ≡ false) rules apart;
    } in
    let (m, made, knows) = technical_manifest-Knows rules fit in
    let d = clean_domain domain in
    let ps = clean_pages pages in
    let c = derive_capabilities-AreDerived show site_type ps d h in
    let ctx : MeasureCtx = record {
      site_category = some site_type;
      defaulted = defaulted;
      capabilities = some c.caps;
    } in
    let (rows, given, fits) = rows_from-Fit d ps ctx (sort_by by_code (ordered_rules rules)) in
    let index =
      index_rows-IsIndex m d ps ctx (sort_by by_code (ordered_rules rules)) rows []
        (known m (counted_rules rules) fit knows) fits (record { entries = tt; once = refl }) in
    let taken = technical_outcomes-IsTaken m (index_rows [] rows) index knows.robots in
    let (r, scored) =
      score_r2-ok positive (profile_or site_type) m (technical_outcomes (index_rows [] rows) m)
        knows.each taken in
    returned (technical_readiness show rules pages domain site_type defaulted)
      (rw (c.derived, given, made, scored) refl)
