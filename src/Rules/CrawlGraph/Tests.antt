-- ===== src/Rules/CrawlGraph/Tests.antt =====
-- The rules on a chain of five links, with a page that no link leads to.
use scovant_core.Prelude.{String, ◌≡◌, refl, some, [], ◌∷◌, Option, Result, ok, err}
use scovant_core.Prelude.Json.{Json, null, object, no_more, field}
use scovant_core.Analysis.CrawlGraph.{CrawlError, Links, CrawlGraph, build_crawl_graph}
use scovant_core.Rules.CrawlGraph.{
  count_json, graph_finding, graph_metadata, evaluate_deep, evaluate_orphans, evaluate_dead_ends,
}
use scovant_core.Rules.CrawlGraph.Deep.{graph_json}

abbrev same : String → Option String
same url = some url

abbrev chain : Links
chain =
    ("/", "/a" ∷ [])
    ∷ ("/a", "/b" ∷ "/" ∷ [])
    ∷ ("/b", "/c" ∷ [])
    ∷ ("/c", "/d" ∷ [])
    ∷ ("/d", "/e" ∷ [])
    ∷ ("/e", [])
    ∷ ("/alone", "/" ∷ [])
    ∷ []

abbrev domain_of : Result CrawlError CrawlGraph → Json
domain_of (err e) = null
domain_of (ok g) = object (field "crawl_graph" (graph_json g) no_more)

evaluate_deep_test :
    evaluate_deep null (domain_of (build_crawl_graph same chain "/"))
    ≡ ok (
        graph_finding (
          graph_metadata
            (count_json 7)
            ("/d" ∷ "/e" ∷ [])
            (field "max_depth" (count_json 5) no_more))
        ∷ [])
unfolding evaluate_deep build_crawl_graph
evaluate_deep_test = refl

evaluate_orphans_test :
    evaluate_orphans null (domain_of (build_crawl_graph same chain "/"))
    ≡ ok (graph_finding (graph_metadata (count_json 7) ("/alone" ∷ []) no_more) ∷ [])
unfolding evaluate_orphans build_crawl_graph
evaluate_orphans_test = refl

evaluate_dead_ends_test :
    evaluate_dead_ends null (domain_of (build_crawl_graph same chain "/"))
    ≡ ok (graph_finding (graph_metadata (count_json 7) ("/e" ∷ []) no_more) ∷ [])
unfolding evaluate_dead_ends build_crawl_graph
evaluate_dead_ends_test = refl
