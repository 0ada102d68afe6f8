-- ===== src/R2/Technical.antt =====
-- r2/technical.py: the outcome of a rule from its verdicts on the domain or on the sampled pages,
-- the outcome that a stored row stands for, and the gate derived from another rule. The predicate
-- `measure` of a rule is a parameter.
pub mod Pages
pub mod Specs
pub mod Codes
pub mod Built
mod Tests
use scovant_core.Prelude.{
  ℕ, suc, ◌+◌, ◌-◌, String, Bool, true, false, not, ◌&&◌, ◌||◌, Option, none, some, List, [], ◌∷◌,
  ◌++◌, length, ◌==◌, ltb, if◌then◌else◌, is_empty, is_some, str_eq, contains, lookup, concat,
}
use scovant_core.Prelude.Json
use scovant_core.Prelude.Json.{Json, truthy, object, no_more, is_true}
use scovant_core.Models.{Severity}
use scovant_core.Capabilities.{Capabilities, gate}
use scovant_core.R2.Outcome.{Outcome, OutcomeState, R2Category, plain, is_measured, is_na}
use scovant_core.R2.Manifest
use scovant_core.R2.Manifest.{RuleSpec, RuleScope, ScoreEffect, Maturity, Manifest}

abbrev pub absence_codes : List String
absence_codes =
    "LLMS_TXT_MISSING_OR_INVALID" ∷ "MARKDOWN_FOR_AGENTS_ABSENT" ∷ "LINK_HEADERS_ABSENT"
    ∷ "CONTENT_SIGNALS_ABSENT" ∷ "UCP_PROFILE_ABSENT" ∷ "MCP_ENDPOINT_ABSENT"
    ∷ "AGENT_INTERFACE_DISCOVERY_ABSENT" ∷ "AGENT_PAYMENTS_ABSENT" ∷ []

abbrev pub low_band_warn_codes : List String
low_band_warn_codes = "CITABILITY_WEAK" ∷ "PAGE_TOKEN_BLOAT" ∷ []

abbrev pub marker_codes : List String
marker_codes = "AI-BOT-POLICY-001" ∷ "WEBMCP-001" ∷ "TOOL-RISK-001" ∷ []

abbrev pub bot_protection_rule : String
bot_protection_rule = "BOT_PROTECTION_BLOCKING_AGENTS"

abbrev pub gate_robots : String
gate_robots = "R2-GATE-ROBOTS-BLOCKS-AGENTS"

abbrev pub gate_robots_spec : RuleSpec
gate_robots_spec = record {
  rule_id = gate_robots;
  signal = "gate:robots_blocks_ai_crawlers";
  category = R2Category.discoverability;
  severity = Severity.critical;
  scope = RuleScope.domain;
  score_effect = ScoreEffect.gate;
  root_cause_group = "agent_access_blocked";
  profiles = [];
  maturity = Maturity.required;
  rule_version = "1.0";
}

-- an outcome with a state and a reason
abbrev pub because : String → OutcomeState → String → Outcome
because code state reason = record (plain code state "") { reason = reason }

-- the outcome of the gate, where it has one; else what follows it
abbrev pub at_gate {ℓ} :
    {A : Type ℓ} → String → (Outcome → A) → Option (OutcomeState × String) → A → A
at_gate code f (some hit) a = f (because code hit.0 hit.1)
at_gate code f none a = a

-- `domain_outcome` behind its gate
abbrev pub judged : String → Option OutcomeState → Bool → Outcome
judged code (some state) fired = because code state "predicate"
judged code none fired = because code (if fired then OutcomeState.fail else OutcomeState.pass) ""

abbrev pub domain_measured : String → (Json → Option OutcomeState) → Json → Bool → Bool → Outcome
domain_measured code measure domain fired have_pages =
    if have_pages
    then judged code (measure domain) fired
    else because code OutcomeState.not_measured "no_pages_evaluated"

-- `domain_outcome`
unfoldable pub domain_outcome :
    String
    → Option (Json → Option OutcomeState)
    → Json
    → Bool
    → Bool
    → Option Capabilities
    → Outcome
domain_outcome code none domain fired have_pages caps =
    because code OutcomeState.unknown "no_declaration"
domain_outcome code (some measure) domain fired have_pages caps =
    at_gate code (λ o. o) (gate code caps) (domain_measured code measure domain fired have_pages)

-- `page or {}`
abbrev pub page_or_empty : Json → Json
page_or_empty page = if truthy page then page else object no_more

-- `content_blocked`
abbrev pub content_blocked : Json → Bool
content_blocked page = is_true (Json.get "content_blocked" page)

-- the four counters of `page_outcome`
pub record Tally : Type 0 where
  pub measured : ℕ
  pub failed : ℕ
  pub na : ℕ
  pub blocked : ℕ

abbrev pub no_tally : Tally
no_tally = record { measured = 0; failed = 0; na = 0; blocked = 0 }

abbrev pub one_if : Bool → ℕ
one_if b = if b then 1 else 0

-- what a verdict adds
unfoldable pub add_verdict : Option OutcomeState → Bool → Tally → Tally
add_verdict none fired t = record t { measured = t.measured + 1; failed = t.failed + one_if fired }
add_verdict (some state) fired t = if is_na state then record t { na = t.na + 1 } else t

module _ (code : String) (measure : Json → Json → Option OutcomeState) (domain : Json)
    (skip_content_blocked : Bool) where
  -- the test of the `continue`
  abbrev pub is_walled : Json → Bool
  is_walled page =
      skip_content_blocked
      && not (str_eq code bot_protection_rule)
      && content_blocked (page_or_empty page)

  -- one turn of the loop over the pages
  unfoldable pub add_page : Json → Bool → Tally → Tally
  unfolding add_verdict
  add_page page fired t =
      if is_walled page
      then record t { blocked = t.blocked + 1 }
      else add_verdict (measure (page_or_empty page) domain) fired t

  -- the loop; `none` is the `ValueError` of `zip` on lists of two lengths
  unfoldable pub tally_pages : List Json → List Bool → Tally → Option Tally
  unfolding add_page
  tally_pages [] [] t = some t
  tally_pages (page ∷ pages) (fired ∷ rest) t = tally_pages pages rest (add_page page fired t)
  tally_pages _ _ t = none

-- `page_outcome` behind its loop
unfoldable pub conclude : String → ℕ → Tally → Outcome
conclude code pages t =
    if not (t.measured == 0)
    then record (plain code (if t.failed == 0 then OutcomeState.pass else OutcomeState.fail) "") {
      pages_measured = some t.measured;
      pages_failed = some t.failed;
    }
    else if not (t.na == 0) && t.na == pages - t.blocked
    then because code OutcomeState.na "predicate"
    else if not (t.blocked == 0)
    then because code OutcomeState.not_measured "bot_protection_blocked"
    else because code OutcomeState.not_measured
        (if pages == 0 then "no_pages_evaluated" else "predicate")

abbrev pub map_option {ℓ κ} : {A : Type ℓ} {B : Type κ} → (A → B) → Option A → Option B
map_option f none = none
map_option f (some a) = some (f a)

-- `page_outcome`
unfoldable pub page_outcome :
    String
    → Option (Json → Json → Option OutcomeState)
    → List Json
    → Json
    → List Bool
    → Bool
    → Option Capabilities
    → Option Outcome
unfolding tally_pages conclude
page_outcome code none pages domain fired skip caps =
    some (because code OutcomeState.unknown "no_declaration")
page_outcome code (some measure) pages domain fired skip caps =
    at_gate code (λ o. some o) (gate code caps)
      (map_option (conclude code (length pages))
        (tally_pages code measure domain skip pages fired no_tally))

-- a stored row: the fields of an outcome and the severity that was seen
pub record OutcomeRow : Type 0 where
  pub outcome : Outcome
  pub severity_seen : String

abbrev pub fails_or_warns : OutcomeState → Bool
fails_or_warns OutcomeState.fail = true
fails_or_warns OutcomeState.warn = true
fails_or_warns _ = false

abbrev pub is_failing : OutcomeState → Bool
is_failing OutcomeState.fail = true
is_failing _ = false

-- `outcome_from_row`
unfoldable pub outcome_from_row : OutcomeRow → Outcome
outcome_from_row row =
    let o = row.outcome in
    if contains absence_codes o.rule_id && fails_or_warns o.state
    then because o.rule_id OutcomeState.na "capability_absent"
    else if is_failing o.state
        && contains low_band_warn_codes o.rule_id
        && str_eq row.severity_seen "low"
    then record o { state = OutcomeState.warn }
    else o

-- `derived_gate`
unfoldable pub derived_gate : String → Option Outcome → Outcome
derived_gate rule_id none = because rule_id OutcomeState.unknown "source_missing"
derived_gate rule_id (some o) =
    because rule_id (if is_measured o.state then o.state else OutcomeState.na)
      (concat "from:" o.rule_id)

abbrev pub listed : Manifest → List (String × Outcome) → List Outcome
listed m [] = []
listed m ((id, o) ∷ rest) =
    let os = listed m rest in if is_some (Manifest.get m id) then o ∷ os else os

-- `technical_outcomes`
unfoldable pub technical_outcomes : List (String × Outcome) → Manifest → List Outcome
unfolding derived_gate
technical_outcomes by_id m =
    listed m by_id ++ derived_gate gate_robots (lookup "AI_CRAWLER_BLOCKED" by_id) ∷ []
