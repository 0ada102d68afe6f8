-- ===== src/Rules/RobotsPolicy.antt =====
-- rules/robots_policy.py: the rule AI_CRAWLER_BLOCKED on a domain, which is `null` where there is none.
-- The texts of a finding are left out; its metadata are the blocked agents.
pub mod Parsed
pub mod Raises
mod Tests
use scovant_core.Prelude.{
  String, Bool, true, false, not, Option, none, some, List, [], ◌∷◌, is_empty, if◌then◌else◌,
  Result, ok, err, ◌>>=◌,
}
use scovant_core.Prelude.Json.{Json, Items, array, text, object, end, item, no_more, field, truthy}
use scovant_core.R2.Outcome.{OutcomeState}
use scovant_core.Rules.{Finding, MeasureCtx, probe_measured}
use scovant_core.Rules.Python.{PyError, get_key, get_default, or_value, is_in, keep_in}

abbrev pub ai_crawlers : List String
ai_crawlers = "GPTBot" ∷ "ClaudeBot" ∷ "Google-Extended" ∷ "PerplexityBot" ∷ []

-- `"/" in (robots.get(agent) or {}).get("disallow", [])`
unfoldable pub blocks : Json → String → Result PyError Bool
blocks robots agent = do
  group ← get_key agent robots
  disallow ← get_default "disallow" (array end) (or_value (object no_more) group)
  is_in "/" disallow

abbrev pub texts : List String → Items
texts [] = end
texts (s ∷ ss) = item (text s) (texts ss)

abbrev pub blocked_finding : List String → List Finding
blocked_finding [] = []
blocked_finding agents =
    record {
      severity = none;
      code = none;
      metadata = object (field "blocked_agents" (array (texts agents)) no_more);
    }
    ∷ []

-- `AiCrawlerBlocked.evaluate`, behind the test of the domain
unfoldable pub blocked_in : Json → Result PyError (List Finding)
unfolding blocks keep_in
blocked_in domain = do
  robots ← get_key "robots" domain
  agents ← keep_in (blocks (or_value (object no_more) robots)) ai_crawlers
  ok (blocked_finding agents)

-- `AiCrawlerBlocked.evaluate`
unfoldable pub evaluate : Json → Json → Result PyError (List Finding)
unfolding blocked_in
evaluate page domain = if not (truthy domain) then ok [] else blocked_in domain

-- `AiCrawlerBlocked.measure`
unfoldable pub measure : Json → Json → MeasureCtx → Option OutcomeState
unfolding probe_measured
measure page domain ctx = probe_measured domain ctx ("robots" ∷ [])
