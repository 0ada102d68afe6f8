-- ===== src/Rules/RobotsPolicy/Parsed.antt =====
-- AI_CRAWLER_BLOCKED on what the parser of robots.txt gives.
use scovant_core.Prelude.{String, Bool, Option, none, some, List, [], ◌∷◌, keep, Result, ◌>>=◌}
use scovant_core.Prelude.Json.{Json, Fields, null, array, object, end, no_more, field}
use scovant_core.Parsers.Robots.{disallow, Group, Parsed}
use scovant_core.Parsers.Robots.Lines.{listed, directives}
use scovant_core.Rules.Python.{PyError, get_default, or_value, is_in}
use scovant_core.Rules.RobotsPolicy.{ai_crawlers, texts}

abbrev pub group_json : Group → Json
group_json g = object (
    field "allow" (array (texts g.allowed)) (field "disallow" (array (texts g.disallowed)) no_more))

abbrev pub group_fields : List (String × Group) → Fields
group_fields [] = no_more
group_fields ((k, g) ∷ groups) = field k (group_json g) (group_fields groups)

-- the result as a dictionary: the sitemaps come after the first group, which is "general"
abbrev pub result_fields : List String → List (String × Group) → Fields
result_fields sitemaps [] = field "sitemaps" (array (texts sitemaps)) no_more
result_fields sitemaps ((k, g) ∷ groups) =
    field k (group_json g) (field "sitemaps" (array (texts sitemaps)) (group_fields groups))

abbrev pub result_json : Parsed → Json
result_json p = object (result_fields p.sitemaps p.groups)

abbrev group_or_null : Option Group → Json
group_or_null none = null
group_or_null (some g) = group_json g

in_group : Json → Result PyError Bool
in_group group = do
  paths ← get_default "disallow" (array end) (or_value (object no_more) group)
  is_in "/" paths

-- the agents that the lines of a robots.txt block from the root
abbrev pub blocked_by : String → List String
blocked_by content = keep (λ agent. listed disallow agent "/" (directives content)) ai_crawlers
