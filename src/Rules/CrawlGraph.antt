-- ===== src/Rules/CrawlGraph.antt =====
-- rules/crawl_graph.py: the three rules on the link graph of the sampled pages. The texts of a finding are
-- left out.
mod Deep
mod Tests
use scovant_core.Prelude.{
  ℕ, String, Bool, true, false, not, ◌&&◌, Option, none, some, List, [], ◌∷◌, map, length, ltb,
  is_empty, if◌then◌else◌, str_leb, Result, ok, err, ◌>>=◌,
}
use scovant_core.Prelude.Sort.{sort_by}
use scovant_core.Prelude.Json.{
  Json, Number, int, Fields, null, bool, number, text, array, object, no_more, field, truthy,
  nonzero, is_text, is_null,
}
use scovant_core.R2.Outcome.{OutcomeState}
use scovant_core.Rules.{Finding, MeasureCtx, probe_measured}
use scovant_core.Rules.Python.{
  PyError, attribute_error, get_key, get_default, or_value, is_in, keep_in,
}
use scovant_core.Rules.RobotsPolicy.{texts}

abbrev pub deep_page_depth : ℕ
deep_page_depth = 3

abbrev pub example_cap : ℕ
example_cap = 5

abbrev pub pairs_of : Fields → List (String × Json)
pairs_of no_more = []
pairs_of (field k v fs) = (k, v) ∷ pairs_of fs

-- `v.items()`
abbrev pub items : Json → Result PyError (List (String × Json))
items (object fs) = ok (pairs_of fs)
items _ = err attribute_error

-- what the rules read of the graph; CRAWL-GRAPH-002 does without its root
pub record GraphRead : Type 0 where
  pub root : Json
  pub sampled : Json
  pub pages : List (String × Json)

unfoldable pub read_graph : Json → Result PyError GraphRead
read_graph domain = do
  block ← get_key "crawl_graph" domain
  let graph = or_value (object no_more) block
  root ← get_key "root" graph
  sampled ← get_default "sampled" (number (int false 0)) graph
  pages ← get_key "pages" graph
  entries ← items (or_value (object no_more) pages)
  ok (record { root = root; sampled = sampled; pages = entries })

-- the test of the domain, before each of the three bodies
unfoldable pub on_graph :
    (GraphRead → Result PyError (List Finding)) → Json → Result PyError (List Finding)
unfolding read_graph
on_graph body domain =
    let judged = (do
      known ← is_in "crawl_graph" domain
      (if not known then ok [] else (do graph ← read_graph domain; body graph))) in
    if not (truthy domain) then ok [] else judged

-- `v == 0`
abbrev pub is_zero : Json → Bool
is_zero (number n) = not (nonzero n)
is_zero (bool b) = not b
is_zero _ = false

-- `xs[:n]`
abbrev pub first_of : {A : Type 0} → ℕ → List A → List A
first_of n [] = []
first_of ℕ.zero (x ∷ xs) = []
first_of (ℕ.suc n) (x ∷ xs) = x ∷ first_of n xs

abbrev pub count_json : ℕ → Json
count_json n = number (int false n)

-- the metadata of a finding on these URLs, with those of one rule
abbrev pub graph_metadata : Json → List String → Fields → Json
graph_metadata sampled urls more = object (
    field "count" (count_json (length urls))
      (field "examples" (array (texts (first_of example_cap urls))) (field "sampled" sampled more)))

abbrev pub graph_finding : Json → Finding
graph_finding metadata = record { severity = none; code = none; metadata = metadata }

-- the findings of the orphan and of the dead-end rule
unfoldable pub url_findings : Json → List (String × Json) → List Finding
unfolding sort_by
url_findings sampled [] = []
url_findings sampled (e ∷ es) =
    graph_finding
      (graph_metadata sampled (sort_by str_leb (map (λ entry. entry.0) (e ∷ es))) no_more)
    ∷ []

-- `info.get("inlinks") == 0 and info.get("depth") is None`
abbrev pub unreached : Json → Result PyError Bool
unreached info = do
  inlinks ← get_key "inlinks" info
  depth ← get_key "depth" info
  ok (is_zero inlinks && is_null depth)

abbrev pub is_orphan : Json → String × Json → Result PyError Bool
is_orphan root entry = if is_text entry.0 root then ok false else unreached entry.1

-- `CrawlGraphOrphanPages.evaluate`
unfoldable pub evaluate_orphans : Json → Json → Result PyError (List Finding)
unfolding on_graph keep_in url_findings
evaluate_orphans page domain =
    on_graph
      (λ graph. do
        orphans ← keep_in (is_orphan graph.root) graph.pages
        ok (url_findings graph.sampled orphans))
      domain

abbrev pub no_outlinks : Json → Result PyError Bool
no_outlinks info = do outlinks ← get_key "outlinks_raw" info; ok (is_zero outlinks)

abbrev pub is_dead_end : Json → String × Json → Result PyError Bool
is_dead_end root entry = if is_text entry.0 root then ok false else no_outlinks entry.1

-- `CrawlGraphDeadEndPages.evaluate`
unfoldable pub evaluate_dead_ends : Json → Json → Result PyError (List Finding)
unfolding on_graph keep_in url_findings
evaluate_dead_ends page domain =
    on_graph
      (λ graph. do
        ends ← keep_in (is_dead_end graph.root) graph.pages
        ok (url_findings graph.sampled ends))
      domain

-- `isinstance(depth, int) and depth > DEEP_PAGE_DEPTH`, with the depth; a flag is at most 1
abbrev pub deep_depth : Json → Option ℕ
deep_depth (number (int false n)) = if ltb deep_page_depth n then some n else none
deep_depth _ = none

abbrev pub cons_deep : String → Option ℕ → List (String × ℕ) → List (String × ℕ)
cons_deep url none rest = rest
cons_deep url (some n) rest = (url, n) ∷ rest

-- the pages that are deep, with their depths
unfoldable pub deep_entries : List (String × Json) → Result PyError (List (String × ℕ))
deep_entries [] = ok []
deep_entries ((url, info) ∷ entries) = do
  depth ← get_key "depth" info
  rest ← deep_entries entries
  ok (cons_deep url (deep_depth depth) rest)

abbrev pub max_depth : List (String × ℕ) → ℕ
max_depth [] = 0
max_depth ((url, n) ∷ rest) = let most = max_depth rest in if ltb most n then n else most

-- the URLs differ, so the order of the pairs is that of the URLs
unfoldable pub deep_findings : Json → List (String × ℕ) → List Finding
unfolding sort_by
deep_findings sampled [] = []
deep_findings sampled (e ∷ es) =
    graph_finding (
      graph_metadata sampled (sort_by str_leb (map (λ entry. entry.0) (e ∷ es)))
        (field "max_depth" (count_json (max_depth (e ∷ es))) no_more))
    ∷ []

-- `CrawlGraphDeepPages.evaluate`
unfoldable pub evaluate_deep : Json → Json → Result PyError (List Finding)
unfolding on_graph deep_entries deep_findings
evaluate_deep page domain =
    on_graph (λ graph. do deep ← deep_entries graph.pages; ok (deep_findings graph.sampled deep))
      domain

-- `measure` of each of the three rules
unfoldable pub measure_graph : Json → Json → MeasureCtx → Option OutcomeState
unfolding probe_measured
measure_graph page domain ctx = probe_measured domain ctx ("crawl_graph" ∷ [])
