-- ===== src/Rules/CrawlGraph/Deep.antt =====
-- Which pages CRAWL-GRAPH-002 names on the graph of a sample.
use scovant_core.Prelude.{
  ℕ, String, ◌≡◌, ◌≤◌, ◌<◌, ◌⊎◌, Option, none, some, List, [], ◌∷◌, keys, length, str_leb, All, In,
}
use scovant_core.Prelude.Sort.{sort_by}
use scovant_core.Prelude.Json
use scovant_core.Prelude.Json.{Json, Fields, null, bool, text, array, object, no_more, field}
use scovant_core.Analysis.CrawlGraph.{Links, PageInfo, CrawlGraph}
use scovant_core.Analysis.CrawlGraph.Walks.{Walk}
use scovant_core.Analysis.CrawlGraph.Built.{IsDistance}
use scovant_core.Rules.{Finding}
use scovant_core.Rules.RobotsPolicy.{texts}
use scovant_core.Rules.CrawlGraph.{count_json, first_of, deep_depth, deep_page_depth, cons_deep}

abbrev pub depth_json : Option ℕ → Json
depth_json none = null
depth_json (some n) = count_json n

abbrev pub info_json : PageInfo → Json
info_json info = object (
    field "inlinks" (count_json info.inlinks) (
      field "outlinks_in_sample" (count_json info.outlinks_in_sample) (
        field "outlinks_raw" (count_json info.outlinks_raw)
          (field "depth" (depth_json info.depth_found) no_more))))

abbrev pub page_fields : List (String × PageInfo) → Fields
page_fields [] = no_more
page_fields ((url, info) ∷ pages) = field url (info_json info) (page_fields pages)

-- the graph as the dictionary that `build_crawl_graph` returns
abbrev pub graph_json : CrawlGraph → Json
graph_json g = object (
    field "root" (text g.root) (
      field "sampled" (count_json g.sampled) (
        field "root_fallback" (bool g.root_fallback)
          (field "pages" (object (page_fields g.pages)) no_more))))

-- the pages with a depth above the limit
abbrev pub deep_pages : List (String × PageInfo) → List (String × ℕ)
deep_pages [] = []
deep_pages ((url, info) ∷ pages) =
    cons_deep url (deep_depth (depth_json info.depth_found)) (deep_pages pages)

module _ (adjacency : Links) (root : String) where
  -- a page whose least number of hops from the root is the given one, and above the limit
  abbrev pub IsDeep : String × ℕ → Type 0
  IsDeep (u, n) = (deep_page_depth < n) × IsDistance adjacency root u (some n)

  -- a page that is not deep: no walk leads to it, or one within the limit
  abbrev pub IsNear : String → Type 0
  IsNear u =
      IsDistance adjacency root u none ⊎ ((n : ℕ) × Walk adjacency root n u × (n ≤ deep_page_depth))

  abbrev pub IsJudged : List (String × ℕ) → String → Type 0
  IsJudged deep u = ((n : ℕ) × In (u, n) deep) ⊎ IsNear u

  -- the pages that are named are deep, and the others are not
  pub record AreDeep (g : CrawlGraph) (deep : List (String × ℕ)) : Type 0 where
    pub named : All IsDeep deep
    pub others : All (IsJudged deep) (keys g.pages)

-- what the metadata of a finding say of the deep pages
pub record Describes (deep : List (String × ℕ)) (sampled : Json) (m : Json) : Type 0 where
  pub counted : Json.get "count" m ≡ count_json (length deep)
  pub examples : Json.get "examples" m ≡ array (texts (first_of 5 (sort_by str_leb (keys deep))))
  pub of_sample : Json.get "sampled" m ≡ sampled
  pub deepest : String × ℕ
  pub attained : In deepest deep
  pub most : All (λ entry. entry.1 ≤ deepest.1) deep
  pub shown : Json.get "max_depth" m ≡ count_json deepest.1

-- no finding where no page is deep, else one that describes them
pub data Reports (sampled : Json) : List (String × ℕ) → List Finding → Type 0 where
  silent : Reports sampled [] []
  speaks :
      (e : String × ℕ) (deep : List (String × ℕ)) (f : Finding)
      → Describes (e ∷ deep) sampled f.metadata
      → Reports sampled (e ∷ deep) (f ∷ [])

-- an entry with the greatest depth
record IsDeepest (deep : List (String × ℕ)) (n : ℕ) : Type 0 where
  page : String
  attained : In (page, n) deep
  most : All (λ entry. entry.1 ≤ n) deep
