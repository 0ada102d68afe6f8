-- ===== src/R2/Technical/Tests.antt =====
-- The theorem on page rules at three pages, one of them a wall.
use scovant_core.Prelude.{◌≡◌, refl, true, false, Option, none, some, List, [], ◌∷◌}
use scovant_core.Prelude.Json.{Json, bool, text, object, no_more, field}
use scovant_core.Capabilities.{gate}
use scovant_core.R2.Outcome.{Outcome, OutcomeState, plain}
use scovant_core.R2.Technical.{page_outcome}
use scovant_core.R2.Technical.Pages.{
  IsVerdict, count_measured, count_failed, page_outcome-IsVerdict,
}

abbrev walled_page : Json
walled_page = object (field "content_blocked" (bool true) no_more)

abbrev open_page : Json
open_page = object (field "url" (text "https://shop.test/") no_more)

abbrev domain_of_site : Json
domain_of_site = object no_more

abbrev any_page : Json → Json → Option OutcomeState
any_page page domain = none

abbrev pages : List Json
pages = open_page ∷ walled_page ∷ open_page ∷ []

abbrev one_failed : Outcome
one_failed = record (plain "SCHEMA" OutcomeState.fail "") {
  pages_measured = some 2;
  pages_failed = some 1;
}

one_failed_test :
    page_outcome "SCHEMA" (some any_page) pages domain_of_site (true ∷ true ∷ false ∷ []) true none
    ≡ some one_failed
unfolding page_outcome gate
one_failed_test = refl

page_outcome-IsVerdict_example :
    IsVerdict
      (count_measured "SCHEMA" any_page domain_of_site true pages)
      (count_failed "SCHEMA" any_page domain_of_site true pages (true ∷ true ∷ false ∷ []))
      one_failed
unfolding gate
page_outcome-IsVerdict_example =
    page_outcome-IsVerdict "SCHEMA" any_page pages domain_of_site (true ∷ true ∷ false ∷ []) true
      none refl one_failed_test
