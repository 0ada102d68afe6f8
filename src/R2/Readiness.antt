-- ===== src/R2/Readiness.antt =====
-- r2/readiness.py: the block of Technical Readiness in a report, from a run. Whether the tokenizer is
-- installed and how the site type was found are parameters.
pub mod Estimated
pub mod Listed
mod Tests
use scovant_core.Prelude.{
  ℕ, String, Bool, true, false, not, ◌&&◌, ◌||◌, Option, none, some, List, [], ◌∷◌, ◌++◌, map, any,
  keep, if◌then◌else◌, is_none, str_eq, str_leb, starts_with, contains, concat, lookup,
}
use scovant_core.Prelude.Sort.{sort_by}
use scovant_core.Capabilities.{Capabilities}
use scovant_core.R2.Outcome.{Outcome, OutcomeState, R2Category}
use scovant_core.R2.Manifest
use scovant_core.R2.Manifest.{Manifest, RuleSpec, RuleScope, is_required, is_diagnostic}
use scovant_core.R2.Score.Rating.{R2Result, CategoryResult, Status}
use scovant_core.R2.Evaluate.{TechnicalRun}

-- `_UNMEASURED`
abbrev pub is_unmeasured : OutcomeState → Bool
is_unmeasured OutcomeState.not_measured = true
is_unmeasured OutcomeState.unknown = true
is_unmeasured _ = false

abbrev mcp_handshake_rules : List String
mcp_handshake_rules =
    "MCP_DISCOVERY_INVALID" ∷ "SERVER-CARD-004" ∷ "SERVER-CARD-005" ∷ "AGENT-META-001"
    ∷ "AGENT-META-004" ∷ "AGENT-META-008" ∷ "MCP-OBS-001" ∷ "TOOL-RISK-001" ∷ "MCP-AUTH-001" ∷ []

abbrev probe_rules : List (String × List String)
probe_rules =
    ("robots", "AI_CRAWLER_BLOCKED" ∷ "AI-BOT-POLICY-001" ∷ [])
    ∷ ("content_signals", "CONTENT_SIGNALS_ABSENT" ∷ "CONTENT-SIGNAL-001" ∷ [])
    ∷ ("sitemap", "SITEMAP_MISSING_OR_INVALID" ∷ [])
    ∷ ("llms_txt", "LLMS_TXT_MISSING_OR_INVALID" ∷ [])
    ∷ (
      "ucp",
      "UCP_PROFILE_ABSENT" ∷ "UCP_PROFILE_INVALID" ∷ "UCP_CHECKOUT_MISSING"
          ∷ "UCP_SIGNING_KEYS_INVALID" ∷ "AGENT_PAYMENTS_ABSENT" ∷ [],
    )
    ∷ ("mcp", "MCP_ENDPOINT_ABSENT" ∷ mcp_handshake_rules)
    ∷ ("agent_discovery", "AGENT_INTERFACE_DISCOVERY_ABSENT" ∷ [])
    ∷ ("markdown_agents", "MARKDOWN_FOR_AGENTS_ABSENT" ∷ "CONTENT-NEG-002" ∷ "CONTENT-NEG-004" ∷ [])
    ∷ ("link_headers", "LINK_HEADERS_ABSENT" ∷ [])
    ∷ ("agent_payments", "AGENT_PAYMENTS_ABSENT" ∷ [])
    ∷ ("machine_rep", "MACHINE-REP-004" ∷ "MACHINE-REP-005" ∷ [])
    ∷ []

abbrev not_gathered_codes : List String
not_gathered_codes = "AI-BOT-POLICY-001" ∷ []

abbrev not_gathered_prefixes : List String
not_gathered_prefixes = "WEBMCP-" ∷ "LLMS-SUPPLY-" ∷ []

pub data CoreEvidence : Type 0 where
  passive handshake_required tokenizer_optional not_gathered : CoreEvidence

-- `core_evidence`
unfoldable pub core_evidence : String → CoreEvidence
core_evidence code =
    if contains not_gathered_codes code || any (λ p. starts_with code p) not_gathered_prefixes
    then CoreEvidence.not_gathered
    else if contains mcp_handshake_rules code
    then CoreEvidence.handshake_required
    else if str_eq code "PAGE_TOKEN_BLOAT"
    then CoreEvidence.tokenizer_optional
    else CoreEvidence.passive

-- `gathered_by_core`
unfoldable pub gathered_by_core : String → Bool
unfolding core_evidence
gathered_by_core code = elim (core_evidence code) [ CoreEvidence.not_gathered ↦ false | _ ↦ true ]

abbrev or_no_rules : Option (List String) → List String
or_no_rules none = []
or_no_rules (some rules) = rules

abbrev reads_probe : String → String → Bool
reads_probe rule probe = contains (or_no_rules (lookup probe probe_rules)) rule

-- the reason by the kind of evidence
abbrev evidence_reason : Bool → CoreEvidence → String
evidence_reason tokenizer CoreEvidence.handshake_required = "handshake_not_performed"
evidence_reason tokenizer CoreEvidence.tokenizer_optional =
    if tokenizer then "not_measured" else "tokenizer_unavailable"
evidence_reason tokenizer CoreEvidence.not_gathered = "not_gathered_by_core"
evidence_reason tokenizer CoreEvidence.passive = "not_measured"

unfoldable probe_reason : Bool → String → List String → String
unfolding core_evidence
probe_reason tokenizer rule [] = evidence_reason tokenizer (core_evidence rule)
probe_reason tokenizer rule (p ∷ ps) = concat "probe_failed:" p

-- `_reason`
unfoldable pub reason_of : Bool → List String → Outcome → String
unfolding probe_reason sort_by
reason_of tokenizer defaulted o =
    if str_eq o.reason "no_pages_evaluated" && contains defaulted "pages"
    then "probe_failed:pages"
    else if not (contains ("predicate" ∷ "" ∷ []) o.reason)
    then o.reason
    else probe_reason tokenizer o.rule_id (sort_by str_leb (keep (reads_probe o.rule_id) defaulted))

pub record NotMeasured : Type 0 where
  pub rule : String
  pub reason : String

pub record TechnicalOutcome : Type 0 where
  pub rule : String
  pub state : OutcomeState
  pub reason : String
  pub scope : RuleScope

pub data EvidenceState : Type 0 where
  estimated not_measured : EvidenceState

-- what the block reads of the result and of the outcomes; the categories are those of the result
pub record TechnicalReadiness (F : Type 0) : Type 0 where
  pub rating : Option ℕ
  pub grade : Option String
  pub badge : Option String
  pub status : Status
  pub coverage : F
  pub evidence_state : EvidenceState
  pub site_type : String
  pub site_type_origin : String
  pub categories : List (CategoryResult F)
  pub not_measured : List NotMeasured
  pub capabilities : Capabilities

abbrev pub is_insufficient : Status → Bool
is_insufficient Status.insufficient_evidence = true
is_insufficient _ = false

abbrev pub counts_for : Option RuleSpec → Bool
counts_for none = false
counts_for (some s) = is_required s.maturity && not (is_diagnostic s.score_effect)

abbrev pub no_number : {F : Type 0} → R2Result F → Bool
no_number r = is_insufficient r.status || is_none r.rating

module _ (tokenizer : Bool) (defaulted : List String) (manifest : Manifest) where
  -- the test of the comprehension `not_measured`
  abbrev pub is_reported : Outcome → Bool
  is_reported o = is_unmeasured o.state && counts_for (Manifest.get manifest o.rule_id)

  unfoldable pub reason_or : Outcome → String
  unfolding reason_of
  reason_or o = if is_unmeasured o.state then reason_of tokenizer defaulted o else o.reason

  unfoldable pub cons_outcome :
      Outcome → Option RuleSpec → List TechnicalOutcome → List TechnicalOutcome
  unfolding reason_or
  cons_outcome o none rest = rest
  cons_outcome o (some s) rest =
      record { rule = o.rule_id; state = o.state; reason = reason_or o; scope = s.scope } ∷ rest

  -- the outcomes that `technical_report` gives beside the block
  unfoldable pub reported_outcomes : List Outcome → List TechnicalOutcome
  unfolding cons_outcome
  reported_outcomes [] = []
  reported_outcomes (o ∷ os) =
      cons_outcome o (Manifest.get manifest o.rule_id) (reported_outcomes os)

  unfoldable pub technical_block :
      {F : Type 0} → TechnicalRun F → String → String → TechnicalReadiness F
  unfolding reason_of
  technical_block run site_type origin =
      let res = run.result in
      record {
        rating = res.rating;
        grade = res.grade;
        badge = if no_number res || is_none res.badge then none else some "estimated";
        status = res.status;
        coverage = res.coverage;
        evidence_state =
            if no_number res then EvidenceState.not_measured else EvidenceState.estimated;
        site_type = site_type;
        site_type_origin = origin;
        categories = res.categories;
        not_measured =
            map (λ o. record { rule = o.rule_id; reason = reason_of tokenizer defaulted o })
              (keep is_reported run.outcomes);
        capabilities = run.capabilities;
      }
