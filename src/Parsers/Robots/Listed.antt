-- ===== src/Parsers/Robots/Listed.antt =====
-- What the parser gives on any text.
use scovant_core.Prelude.{
  String, ◌≡◌, refl, sym, ◌∙◌, inl, inr, Bool, true, false, not, ◌&&◌, ◌∷◌, Bool-cases, str_eq,
  strip, Result, ok, arith,
}
use scovant_core.Parsers.Robots.{
  Rule, Parsed, ai_agents, nothing_parsed, parse_lines, parse_robots_txt,
}
use scovant_core.Parsers.Robots.Lines.{listed, has_path, directives}
use scovant_core.Parsers.Robots.Kept.{no_groups-has_path, parse_lines-has_path}
use scovant_core.Parsers.Robots.Blank.{listed_blank}

abbrev HasListed : Rule → String → String → String → Parsed → Type 0
HasListed r key path content p =
    has_path r key path p.groups ≡ (not (str_eq path "") && listed r key path (directives content))

and_no : (b : Bool) → (b && false) ≡ false
and_no b = ground arith

nothing-HasListed :
    (r : Rule) (key path content : String)
    → str_eq (strip content) "" ≡ true
    → HasListed r key path content nothing_parsed
nothing-HasListed r key path content h =
    no_groups-has_path r key path ("general" ∷ ai_agents)
    ∙ rw (listed_blank r key path content h) (sym (and_no (not (str_eq path ""))))

module _ {ℓ} {E : Type ℓ} (robot_file_parser : String → Result E (Unit {0}))
    (content : String) where
  -- on a text that the parser of `urllib` reads
  pub parse_robots_txt-returns :
      robot_file_parser content ≡ ok tt
      → (p : Parsed) × (parse_robots_txt robot_file_parser content ≡ ok p)
        × ((r : Rule) (key path : String) → HasListed r key path content p)
  unfolding parse_robots_txt
  parse_robots_txt-returns ran = elim (Bool-cases (str_eq (strip content) "")) [
    | inl e ↦ (nothing_parsed, rw e refl, λ r key path. nothing-HasListed r key path content e)
    | inr e ↦ (
      parse_lines content,
      rw (e, ran) refl,
      λ r key path. parse_lines-has_path r key path content,
    )
  ]

-- The parser of robots.txt returns on any text that the library's parser reads, and puts a path into the
-- group of a crawler, or of "general", exactly if the path is not empty and a line states its rule behind a
-- `User-agent` line of that group, with no line between them that is blank or only a comment.
pub parse_robots_txt-listed :
    {E : Type 0} (robot_file_parser : String → Result E (Unit {0})) (content : String)
    → robot_file_parser content ≡ ok tt
    → (r : Rule) (key path : String)
    → (p : Parsed) × (parse_robots_txt robot_file_parser content ≡ ok p)
      × (has_path r key path p.groups
          ≡ (not (str_eq path "") && listed r key path (directives content)))
parse_robots_txt-listed robot_file_parser content ran r key path =
    let (p, parsed, held) = parse_robots_txt-returns robot_file_parser content ran in
    (p, parsed, held r key path)
