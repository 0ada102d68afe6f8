-- ===== src/Rules/Registry.antt =====
-- The rules that `register_rule` of rules/base.py leaves, with the evidence that they read.
use mathlib.Core.Path.{subst}
use scovant_core.Prelude.{◌≡◌, refl, false, List, [], ◌∷◌, ◌++◌, All, repeats}
use scovant_core.Prelude.Json.{Json, object}
use scovant_core.Rules.Conform.{typed_dict, either, none_type}
use scovant_core.Rules.Conform.Fits.{Fits, a_block, left, right, absent, no_fields}
use scovant_core.Rules.Evidence.{page_evidence, domain_evidence}
use scovant_core.Rules.Conforming.{page, domain, build, conformed_page, conformed_domain}
use scovant_core.Rules.Conforming.Documented.{build-Fits, build_stable}
use scovant_core.Rules.{CoreRule, MeasureCtx, claimed, conforming}
use scovant_core.Rules.Registered.{
  register_rule-IsAccepted, AreRegistered, no_rules, registered, claimed_once,
}

-- a rule that treats what a producer wrote as its conformed, documented copy
pub record ReadsDocumented (r : CoreRule) (p d : Json) : Type 0 where
  page_fits : Fits (conformed_page p) (typed_dict page_evidence)
  domain_fits : Fits (conformed_domain d) (either (typed_dict domain_evidence) none_type)
  evaluated : r.evaluate p d ≡ r.evaluate (conformed_page p) (conformed_domain d)
  measured :
      (ctx : MeasureCtx) → r.measure p d ctx ≡ r.measure (conformed_page p) (conformed_domain d) ctx

conformed_page-Fits : (p : Json) → Fits (conformed_page p) (typed_dict page_evidence)
conformed_page-Fits (object fs) = build-Fits page (object fs) refl
conformed_page-Fits _ = a_block no_fields

conformed_domain-Fits :
    (d : Json) → Fits (conformed_domain d) (either (typed_dict domain_evidence) none_type)
conformed_domain-Fits (object fs) = left (build-Fits domain (object fs) refl)
conformed_domain-Fits _ = right (absent refl)

conformed_page_again : (p : Json) → conformed_page (conformed_page p) ≡ conformed_page p
unfolding build
conformed_page_again (object fs) = unfold build in (build_stable page (object fs)).1
conformed_page_again _ = refl

conformed_domain_again : (d : Json) → conformed_domain (conformed_domain d) ≡ conformed_domain d
unfolding build
conformed_domain_again (object fs) = unfold build in (build_stable domain (object fs)).1
conformed_domain_again _ = refl

conforming-ReadsDocumented : (r : CoreRule) (p d : Json) → ReadsDocumented (conforming r) p d
conforming-ReadsDocumented r p d = record {
  page_fits = conformed_page-Fits p;
  domain_fits = conformed_domain-Fits d;
  evaluated = rw (conformed_page_again p, conformed_domain_again d) refl;
  measured = λ ctx. rw (conformed_page_again p, conformed_domain_again d) refl;
}

module _ (p d : Json) where
  all_documented :
      (rules : List CoreRule) (r : CoreRule)
      → All (λ q. ReadsDocumented q p d) rules
      → All (λ q. ReadsDocumented q p d) (rules ++ conforming r ∷ [])
  all_documented [] r h = (conforming-ReadsDocumented r p d, tt)
  all_documented (q ∷ qs) r h = (h.0, all_documented qs r h.1)

  AreRegistered-documented :
      {rules : List CoreRule} → AreRegistered rules → All (λ q. ReadsDocumented q p d) rules
  AreRegistered-documented no_rules = tt
  AreRegistered-documented (registered {rules = before} r earlier h) =
      subst (λ rs. All (λ q. ReadsDocumented q p d) rs) (register_rule-IsAccepted r before h).made
        (all_documented before r (AreRegistered-documented earlier))

-- The registered rules, however many `register_rule` has accepted one after the other: no code or alias
-- stands twice among them, and whatever a producer wrote for a page and for the domain, each rule
-- evaluates and measures it as the copies that `conform_page` and `conform_domain` give, which fit
-- `PageEvidence`, and `DomainEvidence` or `None`.
pub AreRegistered-IsRegistry :
    {rules : List CoreRule}
    → AreRegistered rules
    → (p d : Json) → (repeats (claimed rules) ≡ false) × All (λ q. ReadsDocumented q p d) rules
AreRegistered-IsRegistry reg p d = (claimed_once reg, AreRegistered-documented p d reg)
