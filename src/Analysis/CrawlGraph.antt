-- ===== src/Analysis/CrawlGraph.antt =====
-- analysis/crawl_graph.py: the link graph of the sampled pages. The normal form of a URL, which
-- `normalize_internal_url` of parsers/html.py takes from `urllib`, is a parameter: `none` is the
-- `ValueError` of a URL that cannot be split. A set of URLs is a
-- list without repetition; `visited` and the keys of `depth` that have a number are set together, and
-- one dictionary stands for both.
pub mod Walks
mod Visit
mod Closed
pub mod Ends
pub mod Built
mod Tests
use Prim.Native.String.{count}
use scovant_core.Prelude.{
  ℕ, suc, ◌+◌, String, Bool, true, false, not, ◌&&◌, ◌||◌, Option, none, some, List, [], ◌∷◌, ◌++◌,
  map, keep, length, is_empty, is_none, ltb, ◌==◌, if◌then◌else◌, str_eq, str_ltb, contains, lookup,
  insert, keys, Result, ok, err, ◌>>=◌,
}

-- a dictionary from a page to its links
abbrev pub Links : Type 0
Links = List (String × List String)

abbrev pub or_nothing : Option (List String) → List String
or_nothing none = []
or_nothing (some links) = links

-- `adjacency.get(url, [])`
abbrev pub links_of : Links → String → List String
links_of adjacency url = or_nothing (lookup url adjacency)

-- the depths assigned so far, and the queue
pub record Search : Type 0 where
  pub depth : List (String × ℕ)
  pub queue : List String

-- the loop over the neighbours of a page, whose depth and one is `next`
unfoldable pub visit : ℕ → List String → Search → Search
visit next [] s = s
visit next (v ∷ vs) s = visit next vs (
    if is_none (lookup v s.depth)
    then record { depth = insert v next s.depth; queue = s.queue ++ v ∷ [] }
    else s)

-- the assertion that the current page has a depth
abbrev pub with_depth : Option ℕ → (ℕ → Option (List (String × ℕ))) → Option (List (String × ℕ))
with_depth none rest = none
with_depth (some d) rest = rest d

-- the loop `while queue`, with fuel. `none`: the fuel ran out, or the assertion failed.
unfoldable pub search_from :
    Links → ℕ → List (String × ℕ) → List String → Option (List (String × ℕ))
unfolding visit
search_from adjacency fuel depth [] = some depth
search_from adjacency ℕ.zero depth (current ∷ queue) = none
search_from adjacency (ℕ.suc fuel) depth (current ∷ queue) = with_depth (lookup current depth) λ d.
    let s = visit (suc d) (links_of adjacency current) (record { depth = depth; queue = queue }) in
    search_from adjacency fuel s.depth s.queue

-- the search from the root, which has depth 0
unfoldable pub depths : Links → String → Option (List (String × ℕ))
unfolding search_from
depths adjacency root =
    if contains (keys adjacency) root
    then search_from adjacency (suc (length adjacency)) ((root, 0) ∷ []) (root ∷ [])
    else some []

-- `(len(u), u)` of one URL is less than that of another
abbrev pub is_shorter : String → String → Bool
is_shorter u v = ltb (count u) (count v) || count u == count v && str_ltb u v

-- `min(sampled_urls, key=…)`
unfoldable pub shortest : String → List String → String
shortest best [] = best
shortest best (u ∷ us) = shortest (if is_shorter u best then u else best) us

unfoldable pub root_among : String → List String → String × Bool
unfolding shortest
root_among root [] = (root, false)
root_among root (u ∷ us) = if contains (u ∷ us) root then (root, false) else (shortest u us, true)

-- `inlinks[target] += 1`; each target is a key
abbrev pub bump : String → List (String × ℕ) → List (String × ℕ)
bump k [] = []
bump k ((j, n) ∷ m) = let rest = bump k m in if str_eq j k then (j, suc n) ∷ m else (j, n) ∷ rest

unfoldable pub bump_each : List String → List (String × ℕ) → List (String × ℕ)
bump_each [] m = m
bump_each (target ∷ targets) m = bump_each targets (bump target m)

-- the loop that counts the inlinks
unfoldable pub count_inlinks : Links → List (String × ℕ) → List (String × ℕ)
unfolding bump_each
count_inlinks [] m = m
count_inlinks ((url, targets) ∷ rest) m = count_inlinks rest (bump_each targets m)

abbrev pub at_zero : List String → List (String × ℕ)
at_zero urls = map (λ u. (u, 0)) urls

-- the links of each page to sampled pages
unfoldable pub in_sample : List String → Links → Links
in_sample sampled [] = []
in_sample sampled ((url, links) ∷ rest) =
    (url, keep (contains sampled) links) ∷ in_sample sampled rest

pub record PageInfo : Type 0 where
  pub inlinks : ℕ
  pub outlinks_in_sample : ℕ
  pub outlinks_raw : ℕ
  pub depth_found : Option ℕ

pub record CrawlGraph : Type 0 where
  pub root : String
  pub sampled : ℕ
  pub root_fallback : Bool
  pub pages : List (String × PageInfo)

abbrev pub or_zero : Option ℕ → ℕ
or_zero none = 0
or_zero (some n) = n

unfoldable pub page_info :
    Links → List (String × ℕ) → Links → List (String × ℕ) → List (String × PageInfo)
page_info normalized inlinks adjacency depth =
    map
      (λ entry. (
        entry.0,
        record {
          inlinks = or_zero (lookup entry.0 inlinks);
          outlinks_in_sample = length (links_of adjacency entry.0);
          outlinks_raw = length entry.1;
          depth_found = lookup entry.0 depth;
        },
      ))
      normalized

unfoldable pub with_depths :
    Links → Links → String × Bool → Option (List (String × ℕ)) → Option CrawlGraph
unfolding page_info count_inlinks
with_depths normalized adjacency root none = none
with_depths normalized adjacency root (some depth) = some (record {
  root = root.0;
  sampled = length normalized;
  root_fallback = root.1;
  pages =
      page_info normalized (count_inlinks adjacency (at_zero (keys normalized))) adjacency depth;
})

-- what `build_crawl_graph` raises: a URL that cannot be split, or the failed assertion of the search
pub data CrawlError : Type 0 where
  bad_url no_depth : CrawlError

abbrev pub or_bad_url : Option String → Result CrawlError String
or_bad_url none = err bad_url
or_bad_url (some u) = ok u

abbrev pub or_no_depth : Option CrawlGraph → Result CrawlError CrawlGraph
or_no_depth none = err no_depth
or_no_depth (some g) = ok g

module _ (normalize : String → Option String) where
  -- the links of a page in normal form, each once
  unfoldable pub unique_links : List String → List String → Result CrawlError (List String)
  unique_links seen [] = ok []
  unique_links seen (link ∷ links) = or_bad_url (normalize link) >>= λ norm_link.
      let skip = unique_links seen links in
      let add = unique_links (norm_link ∷ seen) links >>= λ rest. ok (norm_link ∷ rest) in
      if contains seen norm_link then skip else add

  unfoldable pub normalized_from : Links → Links → Result CrawlError Links
  unfolding unique_links
  normalized_from known [] = ok known
  normalized_from known ((url, links) ∷ pages) = or_bad_url (normalize url) >>= λ norm_url.
      unique_links [] links >>= λ norm_links.
      normalized_from (insert norm_url norm_links known) pages

  -- `build_crawl_graph`
  unfoldable pub build_crawl_graph : Links → String → Result CrawlError CrawlGraph
  unfolding with_depths normalized_from root_among depths in_sample
  build_crawl_graph pages root = do
    normalized ← normalized_from [] pages
    norm_root ← or_bad_url (normalize root)
    let adjacency = in_sample (keys normalized) normalized
    let chosen = root_among norm_root (keys normalized)
    or_no_depth (with_depths normalized adjacency chosen (depths adjacency chosen.0))
