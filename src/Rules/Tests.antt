-- ===== src/Rules/Tests.antt =====
-- Two rules registered one after the other, and the evidence of one.
use scovant_core.Prelude.{
  All, some, ◌≡◌, refl, true, false, none, [], ◌∷◌, String, List, repeats, ok, err,
}
use scovant_core.Models.{Severity}
use scovant_core.Prelude.Json.{Json, null, object, no_more, field, text}
use scovant_core.R2.Outcome.{OutcomeState, R2Category}
use scovant_core.Rules.{
  MeasureCtx, probe_measured, CoreRule, RuleMaturity, RegisterError, claimed, is_release,
  register_rule, conforming,
}
use scovant_core.Rules.Registered.{AreRegistered, no_rules}
use scovant_core.Rules.Registry.{ReadsDocumented, AreRegistered-IsRegistry}

abbrev named : String → List String → CoreRule
named code aliases = record {
  code = code;
  severity = Severity.high;
  is_domain = true;
  category = R2Category.discoverability;
  maturity = RuleMaturity.required;
  rule_version = "1.0";
  aliases = aliases;
  since = "0.9.0";
  evaluate = λ page domain. [];
  measure = λ page domain ctx. probe_measured domain ctx ("robots" ∷ []);
}

abbrev first : CoreRule
first = named "ROBOTS-001" ("ROBOTS-001B" ∷ [])

abbrev second : CoreRule
second = named "SITEMAP-001" []

is_release_test : is_release "0.9.0" ≡ true
unfolding is_release
is_release_test = refl

is_release-short_test : is_release "0.9" ≡ false
unfolding is_release
is_release-short_test = refl

taken_test :
    register_rule (named "ROBOTS-001B" []) (first ∷ [])
    ≡ err (RegisterError.taken ("ROBOTS-001B" ∷ []))
unfolding register_rule
taken_test = refl

registered_test : register_rule second (first ∷ []) ≡ ok (first ∷ conforming second ∷ [])
unfolding register_rule
registered_test = refl

abbrev both : List CoreRule
both = conforming first ∷ conforming second ∷ []

are_registered : AreRegistered both
unfolding register_rule
are_registered = AreRegistered.registered second (AreRegistered.registered first no_rules refl) refl

-- a robots block whose request was answered
abbrev site : Json
site = object (field "robots" (object (field "fetch_status" (text "ok") no_more)) no_more)

AreRegistered-IsRegistry_example :
    (repeats (claimed both) ≡ false) × All (λ q. ReadsDocumented q null site) both
AreRegistered-IsRegistry_example = AreRegistered-IsRegistry are_registered null site

abbrev probed : MeasureCtx
probed = record { site_category = none; defaulted = some ("sitemap" ∷ []); capabilities = none }

probe_measured_test : probe_measured site probed ("robots" ∷ []) ≡ none
unfolding probe_measured
probe_measured_test = refl

probe_measured-sitemap_test :
    probe_measured site probed ("robots" ∷ "sitemap" ∷ []) ≡ some OutcomeState.not_measured
unfolding probe_measured
probe_measured-sitemap_test = refl
