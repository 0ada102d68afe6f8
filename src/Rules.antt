-- ===== src/Rules.antt =====
-- rules/base.py: a rule, its findings, and the registry of rules. The body of a rule is a parameter.
pub mod Registered
pub mod Registry
pub mod Probed
pub mod Conform
pub mod Evidence
pub mod Conforming
pub mod Python
pub mod FloatText
pub mod Products
pub mod Structured
pub mod RobotsPolicy
pub mod CrawlGraph
mod Tests
use Prim.Native.Char.{code}
use scovant_core.Prelude.{
  ℕ, String, Bool, true, false, not, ◌&&◌, ◌||◌, Option, none, some, List, [], ◌∷◌, ◌++◌, leb, ◌==◌,
  any, if◌then◌else◌, is_none, str_eq, str_leb, contains, repeats, strip, Result, ok, err, ◌>>=◌,
  ◌>>◌, raise_if,
}
use scovant_core.Prelude.Sort.{sort_by}
use scovant_core.Prelude.Json
use scovant_core.Prelude.Json.{Json, truthy, is_object, is_text}
use scovant_core.Models.{Severity}
use scovant_core.Rules.Conforming.{conformed_page, conformed_domain}
use scovant_core.Capabilities.{Capabilities}
use scovant_core.R2.Outcome.{OutcomeState, R2Category}

-- A finding without its texts, which nothing reads. A severity is one of the five, so the check of its
-- name has nothing to test.
pub record Finding : Type 0 where
  pub severity : Option Severity
  pub code : Option String
  pub metadata : Json

pub data FindingError : Type 0 where
  empty_code : FindingError

-- `Finding.__post_init__`, the check of the code
unfoldable pub finding_code : Option String → Result FindingError (Unit {0})
unfolding strip
finding_code none = ok tt
finding_code (some c) = raise_if (str_eq (strip c) "") empty_code

pub record MeasureCtx : Type 0 where
  pub site_category : Option String
  -- `none`: the evidence predates the marker
  pub defaulted : Option (List String)
  pub capabilities : Option Capabilities

pub data RuleMaturity : Type 0 where
  required experimental deprecated : RuleMaturity

abbrev pub is_deprecated : RuleMaturity → Bool
is_deprecated RuleMaturity.deprecated = true
is_deprecated _ = false

-- A rule. Its category, severity, scope and maturity are texts, each one of those that the program knows;
-- the scope is "page" or "domain".
pub record CoreRule : Type 0 where
  pub code : String
  pub category : R2Category
  pub severity : Severity
  pub maturity : RuleMaturity
  pub rule_version : String
  pub is_domain : Bool
  pub aliases : List String
  pub since : String
  pub evaluate : Json → Json → List Finding
  pub measure : Json → Json → MeasureCtx → Option OutcomeState

abbrev pub is_defaulted : Option (List String) → String → Bool
is_defaulted none key = false
is_defaulted (some ds) key = contains ds key

-- the loop of `probe_measured`
unfoldable pub probe_keys : Json → MeasureCtx → List String → Option OutcomeState
probe_keys domain ctx [] = none
probe_keys domain ctx (key ∷ keys) =
    let block = Json.get key domain in
    let rest = probe_keys domain ctx keys in
    if not (is_object block)
      || is_defaulted ctx.defaulted key
      || is_text "error" (Json.get "fetch_status" block)
    then some OutcomeState.not_measured
    else rest

-- `probe_measured`
unfoldable pub probe_measured : Json → MeasureCtx → List String → Option OutcomeState
unfolding probe_keys
probe_measured domain ctx keys =
    if truthy domain then probe_keys domain ctx keys else some OutcomeState.not_measured

-- `_RELEASE.fullmatch` on a text in ASCII: three runs of digits between points. `part` is the number of points so far, and
-- `begun` tells whether the run has a digit.
digit : ℕ → Bool
digit c = leb b'0' c && leb c b'9'

is_part : ℕ → ℕ → Bool
is_part ℕ.zero ℕ.zero = true
is_part (ℕ.suc n) (ℕ.suc m) = is_part n m
is_part _ _ = false

release_from : ℕ → Bool → String → Bool
unfolding digit is_part
release_from part begun String.[] = begun && is_part part 2
release_from part begun (String.◌∷◌ c s) =
    let go = release_from part true s in
    let point = release_from (ℕ.suc part) false s in
    if digit (code c) then go else begun && code c == b'.' && not (is_part part 2) && point

unfoldable pub is_release : String → Bool
unfolding release_from
is_release s = release_from 0 false s

pub data RegisterError : Type 0 where
  bad_since : RegisterError
  empty_alias : RegisterError
  repeated_alias : RegisterError
  taken : List String → RegisterError

-- `(r.code, *r.aliases)`
abbrev pub names_of : CoreRule → List String
names_of r = r.code ∷ r.aliases

-- `claimed`
abbrev pub claimed : List CoreRule → List String
claimed [] = []
claimed (r ∷ rs) = names_of r ++ claimed rs

abbrev pub common : List String → List String → List String
common [] ys = []
common (x ∷ xs) ys = let rest = common xs ys in if contains ys x then x ∷ rest else rest

abbrev pub is_nil : List String → Bool
is_nil [] = true
is_nil (x ∷ xs) = false

abbrev blank : String → Bool
blank a = str_eq (strip a) ""

-- `_conforming`: the rule on conformed evidence. The cache of `conform_page` and `conform_domain` changes
-- nothing of what they give.
abbrev pub conforming : CoreRule → CoreRule
conforming r = record r {
  evaluate = λ page domain. r.evaluate (conformed_page page) (conformed_domain domain);
  measure = λ page domain ctx. r.measure (conformed_page page) (conformed_domain domain) ctx;
}

-- `register_rule`: the rules that it leaves
unfoldable pub register_rule : CoreRule → List CoreRule → Result RegisterError (List CoreRule)
unfolding is_release sort_by strip
register_rule r rules = do
  raise_if (not (is_release r.since)) bad_since
  raise_if (any blank r.aliases) empty_alias
  raise_if (contains r.aliases r.code || repeats r.aliases) repeated_alias
  raise_if (not (is_nil (common (names_of r) (claimed rules))))
      (taken (sort_by str_leb (common (names_of r) (claimed rules))))
  ok (rules ++ conforming r ∷ [])
