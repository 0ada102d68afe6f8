-- ===== src/R2/Evaluate/Tests.antt =====
-- Two rules, given out of their order, on two pages.
use scovant_core.Prelude.{String, ◌≡◌, refl, true, false, none, some, List, [], ◌∷◌, map, ok}
use scovant_core.Prelude.Sort.{sort_by}
use scovant_core.Prelude.Json.{Json, null, text, object, no_more, field}
use scovant_core.Models.{Severity}
use scovant_core.Capabilities.{offer_or_price}
use scovant_core.Capabilities.Derived.{AreReadable}
use scovant_core.Rules.{register_rule, CoreRule, RuleMaturity, Finding}
use scovant_core.R2.Outcome.{R2Category}
use scovant_core.R2.Technical.{OutcomeRow}
use scovant_core.R2.Evaluate.Worst.{IsWorst, severities, see_pages-IsWorst}
use scovant_core.R2.Evaluate.{
  clean_pages, clean_domain, technical_readiness, TechnicalRun, see_pages, by_code, ordered_rules,
  rule_rows, see_findings,
}
use scovant_core.Rules.Registered.{AreRegistered, no_rules, registered}
use scovant_core.R2.Manifest.{rule_id_matches}
use scovant_core.Prelude.Float.Fixed.{Fixed, fixed, fixed-IsPositive}
use scovant_core.R2.Evaluate.Returns.{technical_readiness-returns}
use scovant_core.R2.Evaluate.Total.{rule_rows_total}

abbrev found : Finding
found = record { severity = some Severity.low; code = none; metadata = null }

abbrev checks_domain : CoreRule
checks_domain = record {
  code = "SITEMAP-001";
  severity = Severity.high;
  is_domain = true;
  category = R2Category.discoverability;
  maturity = RuleMaturity.required;
  rule_version = "1.0";
  aliases = [];
  since = "0.9.0";
  evaluate = λ page domain. found ∷ [];
  measure = λ page domain ctx. none;
}

abbrev checks_page : CoreRule
checks_page = record checks_domain { code = "HEADING-001"; is_domain = false }

abbrev retired : CoreRule
retired = record checks_domain { code = "OLD-001"; maturity = RuleMaturity.deprecated }

abbrev two_pages : List Json
two_pages = object (field "url" (text "https://shop.test/") no_more) ∷ null ∷ []

see_findings_test :
    see_findings Severity.medium none
      (found ∷ record { severity = none; code = none; metadata = null } ∷ [])
    ≡ some Severity.medium
unfolding see_findings
see_findings_test = refl

abbrev registered_rules : List CoreRule
registered_rules = checks_domain ∷ retired ∷ checks_page ∷ []

ordered_test :
    map (λ r. r.code) (sort_by by_code (ordered_rules registered_rules))
    ≡ "HEADING-001" ∷ "SITEMAP-001" ∷ []
unfolding sort_by
ordered_test = refl

two_reads : AreReadable (clean_pages two_pages) (clean_domain null)
unfolding offer_or_price
two_reads = record { pages_read = (refl, (refl, tt)); domain_read = refl }

abbrev show : Json → String
show v = "?"

rule_rows_total_example :
    (rows : List OutcomeRow) × (rule_rows show registered_rules two_pages null "commerce" none
      ≡ ok rows)
    × (map (λ x. x.outcome.rule_id) rows
        ≡ map (λ r. r.code) (sort_by by_code (ordered_rules registered_rules)))
rule_rows_total_example =
    rule_rows_total show registered_rules two_pages null "commerce" none two_reads

see_pages-IsWorst_example :
    IsWorst (severities null checks_page two_pages) (see_pages null checks_page none two_pages)
see_pages-IsWorst_example = see_pages-IsWorst null checks_page two_pages

are_registered : AreRegistered registered_rules
unfolding register_rule
are_registered =
    registered checks_page (registered retired (registered checks_domain no_rules refl) refl) refl

technical_readiness-returns_example :
    (run : TechnicalRun Fixed) × (technical_readiness show registered_rules two_pages null
        "commerce" none
      ≡ ok run)
unfolding rule_id_matches
technical_readiness-returns_example =
    technical_readiness-returns show fixed-IsPositive registered_rules are_registered
      (refl, (refl, (refl, tt))) (refl, (refl, (refl, tt))) two_pages null "commerce" none two_reads
