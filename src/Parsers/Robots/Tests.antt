-- ===== src/Parsers/Robots/Tests.antt =====
-- The parser on a text.
use scovant_core.Prelude.{String, Result, ok, true, not, ◌&&◌, str_eq, ◌≡◌, refl, [], ◌∷◌, map}
use scovant_core.Parsers.Robots.{
  splitlines, read_line, blank, user_agent, rule, disallow, sitemap, Parsed, parse_robots_txt,
}
use scovant_core.Parsers.Robots.Lines.{is_for, has_path, listed, directives}
use scovant_core.Parsers.Robots.Listed.{parse_robots_txt-listed}

read_line_test :
    map read_line (splitlines "User-Agent: GPTBot # one\r\n# two\n Disallow: /x\rsitemap:/s\n")
    ≡ user_agent "GPTBot" ∷ blank ∷ rule disallow "/x" ∷ sitemap "/s" ∷ []
unfolding splitlines read_line
read_line_test = refl

abbrev reads : String → Result (Unit {0}) (Unit {0})
reads content = ok tt

-- the rule stands in a group with two agents
abbrev grouped : String
grouped = "User-agent: *\nUser-agent: CCBot\nAllow: /y\nDisallow: /x # a part\n"

parse_robots_txt-listed_example :
    (p : Parsed) × (parse_robots_txt reads grouped ≡ ok p)
    × (has_path disallow "general" "/x" p.groups
        ≡ (not (str_eq "/x" "") && listed disallow "general" "/x" (directives grouped)))
parse_robots_txt-listed_example = parse_robots_txt-listed reads grouped refl disallow "general" "/x"

listed_test : listed disallow "general" "/x" (directives grouped) ≡ true
unfolding splitlines read_line is_for
listed_test = refl
