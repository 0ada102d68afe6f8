-- ===== src/Rules/RobotsPolicy/Tests.antt =====
-- The rule on a robots block as the parser writes it, and on one with a text for a group.
use scovant_core.Prelude.{String, Result, ◌≡◌, refl, false, [], ◌∷◌, all, is_ok, ok}
use scovant_core.Prelude.Json
use scovant_core.Prelude.Json.{Json, null, text, array, object, end, item, no_more, field}
use scovant_core.Rules.Conforming.{conformed_domain}
use scovant_core.Rules.RobotsPolicy.{ai_crawlers, blocked_finding, evaluate}
use scovant_core.Rules.Python.{PyError}
use scovant_core.Parsers.Robots.{splitlines, read_line, Parsed}
use scovant_core.Parsers.Robots.Lines.{is_for}
use scovant_core.Rules.RobotsPolicy.Parsed.{blocked_by}
use scovant_core.Rules.RobotsPolicy.Raises.{readable, evaluate-is_ok}

abbrev blocking : Json
blocking = object (
    field "robots"
      (object
        (field "GPTBot" (object (field "disallow" (array (item (text "/") end)) no_more)) no_more))
      no_more)

evaluate_test : evaluate null blocking ≡ ok (blocked_finding ("GPTBot" ∷ []))
unfolding evaluate
evaluate_test = refl

abbrev odd_group : Json
odd_group = object (field "robots" (object (field "GPTBot" (text "yes") no_more)) no_more)

evaluate-is_ok_example :
    is_ok (evaluate null (conformed_domain odd_group))
    ≡ all (λ a. readable (Json.get a (Json.get "robots" (conformed_domain odd_group)))) ai_crawlers
evaluate-is_ok_example = evaluate-is_ok null odd_group

evaluate-odd_group_test : is_ok (evaluate null odd_group) ≡ false
unfolding evaluate
evaluate-odd_group_test = refl

abbrev reads : String → Result PyError (Unit {0})
reads content = ok tt

-- the comment in the second group ends it
abbrev two_groups : String
two_groups =
    "user-agent: GPTBot\nUser-agent: CCBot\nDisallow: /\n\nUser-agent: ClaudeBot\n# all of it\nDisallow: /\n"

blocked_by_test : blocked_by two_groups ≡ "GPTBot" ∷ []
unfolding splitlines read_line is_for
blocked_by_test = refl
