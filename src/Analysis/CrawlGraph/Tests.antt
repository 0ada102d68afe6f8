-- ===== src/Analysis/CrawlGraph/Tests.antt =====
-- The graph of four pages: two hops to the third, none to the fourth.
use scovant_core.Prelude.{
  String, Option, str_eq, if◌then◌else◌, ok, err, ◌≡◌, refl, false, none, some, [], ◌∷◌,
}
use scovant_core.Analysis.CrawlGraph.{
  bad_url, Links, CrawlGraph, normalized_from, build_crawl_graph,
}
use scovant_core.Analysis.CrawlGraph.Built.{IsCrawl, build_crawl_graph-IsCrawl}

abbrev pages : Links
pages =
    ("/", "/a" ∷ "/a" ∷ "/x" ∷ [])
    ∷ ("/a", "/" ∷ "/b" ∷ [])
    ∷ ("/b", "/a" ∷ [])
    ∷ ("/c", "/" ∷ [])
    ∷ []

abbrev same : String → Option String
same url = if str_eq url "http://[x" then none else some url

build_crawl_graph_test :
    build_crawl_graph same pages "/"
    ≡ ok (record {
      root = "/";
      sampled = 4;
      root_fallback = false;
      pages =
          (
            "/",
            record { inlinks = 2; outlinks_in_sample = 1; outlinks_raw = 2; depth_found = some 0 },
          )
          ∷ (
            "/a",
            record { inlinks = 2; outlinks_in_sample = 2; outlinks_raw = 2; depth_found = some 1 },
          )
          ∷ (
            "/b",
            record { inlinks = 1; outlinks_in_sample = 1; outlinks_raw = 1; depth_found = some 2 },
          )
          ∷ (
            "/c",
            record { inlinks = 0; outlinks_in_sample = 1; outlinks_raw = 1; depth_found = none },
          )
          ∷ [];
    })
unfolding build_crawl_graph
build_crawl_graph_test = refl

bad_url_test : build_crawl_graph same (("/", "http://[x" ∷ []) ∷ []) "/" ≡ err bad_url
unfolding build_crawl_graph
bad_url_test = refl

build_crawl_graph-IsCrawl_example :
    (normalized : Links) × (normalized_from same [] pages ≡ ok normalized)
    × ((g : CrawlGraph) × (build_crawl_graph same pages "/missing" ≡ ok g) × IsCrawl normalized g)
build_crawl_graph-IsCrawl_example =
    build_crawl_graph-IsCrawl same pages "/missing"
      (
        (refl, (refl, (refl, (refl, tt)))),
        ((refl, (refl, (refl, tt))), ((refl, (refl, tt)), ((refl, (refl, tt)), tt))),
      )
      refl
