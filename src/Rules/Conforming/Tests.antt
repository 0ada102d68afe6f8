-- ===== src/Rules/Conforming/Tests.antt =====
-- Two pages that stand at one address, one after the other.
use scovant_core.Prelude.{ℕ, false, ◌≡◌, refl, [], ◌∷◌, List, arith, ◌==◌, if◌then◌else◌}
use scovant_core.Prelude.Json.{
  Json, null, item, text, number, int, object, array, end, field, no_more,
}
use scovant_core.Rules.Conform.{typed_dict}
use scovant_core.Rules.Conform.Fits.{Fits}
use scovant_core.Rules.Evidence.{page_evidence}
use scovant_core.Rules.Conforming.Documented.{build-Fits, build_stable}
use scovant_core.Rules.Conforming.{Kind, Entry, build}
use scovant_core.Rules.Conforming.Remembered.{IsCache, AsUncached, conform-AsUncached}

abbrev at_one : ℕ → ℕ
at_one obj = 0

-- a page whose text is a list, and another with a text
abbrev pages : ℕ → Json
pages obj =
    if obj == 1
    then object
        (field "visible_text" (array end) (field "http_status" (number (int false 200)) no_more))
    else object (field "visible_text" (text "hello") no_more)

build_test :
    build Kind.page (pages 1) ≡ object (field "http_status" (number (int false 200)) no_more)
unfolding build
build_test = refl

abbrev first : List Entry
first =
    record { kind = Kind.page; address = 0; object_kept = 1; result = build Kind.page (pages 1) }
    ∷ []

first-IsCache : IsCache at_one pages first
first-IsCache = record { built = (refl, tt); bounded = omega arith }

conform-AsUncached_example : AsUncached at_one pages 2 first []
conform-AsUncached_example =
    conform-AsUncached at_one pages 2 first [] first-IsCache
      (record { built = tt; bounded = omega arith })

build-Fits_example : Fits (build Kind.page (pages 1)) (typed_dict page_evidence)
build-Fits_example = build-Fits Kind.page (pages 1) refl

build_stable_example :
    (Fits (pages 1) (typed_dict page_evidence) → build Kind.page (pages 1) ≡ pages 1)
    × (build Kind.page (build Kind.page (pages 1)) ≡ build Kind.page (pages 1))
build_stable_example = build_stable Kind.page (pages 1)

-- a tool entry that is no object, and a number that is a text, are dropped
abbrev webmcp_domain : Json
webmcp_domain = object (
    field "webmcp"
      (object (
        field "tools"
          (array (
            item (text "buy") (
              item (object (field "name" (text "search") (field "description" null no_more)))
                (item null end))))
          (field "tool_count" (text "2") no_more)))
      no_more)

build-webmcp_test :
    build Kind.domain webmcp_domain
    ≡ object (
        field "webmcp"
          (object (
            field "tools"
              (array (
                item
                  (object (field "name" (text "search") (field "description" null no_more)))
                  end))
              no_more))
          no_more)
unfolding build
build-webmcp_test = refl
