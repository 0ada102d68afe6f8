-- ===== src/Analysis/CrawlGraph/Built.antt =====
-- What `build_crawl_graph` says of the pages.
use mathlib.Core.Path.{subst}
use scovant_core.Prelude.{
  keys, ℕ, String, ◌≤◌, ◌≡◌, refl, sym, ap, ◌∙◌, inl, inr, Bool, true, false, ◌||◌, Option, none,
  some, List, [], ◌∷◌, map, keep, length, Bool-cases, Option-cases, lookup, str_eq, contains,
  eq_iff, All, All_map, In, each_In, insert, is_some, ok, arith,
}
use scovant_core.Analysis.CrawlGraph.{
  Links, links_of, is_shorter, shortest, root_among, depths, in_sample, count_inlinks, at_zero,
  CrawlGraph, page_info, unique_links, normalized_from, with_depths, or_bad_url, or_no_depth,
  build_crawl_graph,
}
use scovant_core.Analysis.CrawlGraph.Walks.{Walk, Depths}
use scovant_core.Analysis.CrawlGraph.Closed.{IsDone, Walk-bound}
use scovant_core.Analysis.CrawlGraph.Ends.{depths-IsDone}

contains-In : (xs : List String) (s : String) → contains xs s ≡ true → In s xs
contains-In [] s h = absurd cc
contains-In (x ∷ xs) s h = elim (Bool-cases (str_eq x s)) [
  | inl e ↦ inl ((eq_iff x s).0 e)
  | inr e ↦ inr (contains-In xs s (rw e at h))
]

keep-holds : (p : String → Bool) (xs : List String) (s : String) → In s (keep p xs) → p s ≡ true
keep-holds p [] s h = absurd h
keep-holds p (x ∷ xs) s h = elim (Bool-cases (p x)) [
  | inl e ↦ elim (rw e at h) [ inl q ↦ subst (λ y. p y ≡ true) q e | inr q ↦ keep-holds p xs s q ]
  | inr e ↦ keep-holds p xs s (rw e at h)
]

in_sample-known :
    (sampled : List String) (pages : Links) (u v : String)
    → In v (links_of (in_sample sampled pages) u)
    → In v sampled
unfolding in_sample
in_sample-known sampled [] u v h = absurd h
in_sample-known sampled ((j, links) ∷ pages) u v h = elim (Bool-cases (str_eq j u)) [
  | inl e ↦ contains-In sampled v (keep-holds (contains sampled) links v (rw e at h))
  | inr e ↦ in_sample-known sampled pages u v (rw e at h)
]

keys-in_sample :
    (sampled : List String) (pages : Links) → keys (in_sample sampled pages) ≡ keys pages
unfolding in_sample
keys-in_sample sampled [] = refl
keys-in_sample sampled ((u, links) ∷ pages) = ap (λ us. u ∷ us) (keys-in_sample sampled pages)

or_right : (a b : Bool) → b ≡ true → (a || b) ≡ true
or_right true b h = refl
or_right false b h = h

-- the shortest of some URLs is one of them
shortest_among :
    (best : String) (us xs : List String)
    → contains xs best ≡ true
    → All (λ u. contains xs u ≡ true) us
    → contains xs (shortest best us) ≡ true
unfolding shortest
shortest_among best [] xs h k = h
shortest_among best (u ∷ us) xs h k = elim (Bool-cases (is_shorter u best)) [
  | inl e ↦ rw e (shortest_among u us xs k.0 k.1)
  | inr e ↦ rw e (shortest_among best us xs h k.1)
]

In-contains : (s : String) (xs : List String) → In s xs → contains xs s ≡ true
In-contains s [] h = absurd h
In-contains s (x ∷ xs) (inl e) = rw ((eq_iff x s).1 e) refl
In-contains s (x ∷ xs) (inr h) = or_right (str_eq x s) (contains xs s) (In-contains s xs h)

root_among-contains :
    (root u : String) (us : List String) → contains (u ∷ us) (root_among root (u ∷ us)).0 ≡ true
unfolding root_among
root_among-contains root u us = elim (Bool-cases (contains (u ∷ us) root)) [
  | inl e ↦ rw e e
  | inr e ↦
      let each = All_map _ _ (λ s h. In-contains s (u ∷ us) h) (u ∷ us) (each_In (u ∷ us)) in
      rw e (shortest_among u us (u ∷ us) each.0 each.1)
]

module _ (adjacency : Links) (root : String) where
  -- the least number of hops from the root, or that there is no walk
  abbrev pub IsDistance : String → Option ℕ → Type 0
  IsDistance u none = (n : ℕ) → ¬ Walk adjacency root n u
  IsDistance u (some d) = Walk adjacency root d u × ((n : ℕ) → Walk adjacency root n u → d ≤ n)

  done-IsDistance :
      (D : Depths) → IsDone adjacency root D → (u : String) → IsDistance u (lookup u D)
  done-IsDistance D done u = elim (Option-cases (lookup u D)) [
    | inl e ↦ rw e (λ n w. let (d, q, le) = Walk-bound adjacency root done w in absurd cc)
    | inr (d, e) ↦ rw e (
      done.sound u d e,
      λ n w.
          let (d', q, le) = Walk-bound adjacency root done w in
          let same : d' ≡ d = cc in omega arith,
    )
  ]

All-of_map :
    {A B : Type 0} (P : B → Type 0) (f : A → B)
    → ((x : A) → P (f x))
    → (xs : List A) → All P (map f xs)
All-of_map P f h [] = tt
All-of_map P f h (x ∷ xs) = (h x, All-of_map P f h xs)

abbrev pub sample : Links → Links
sample pages = in_sample (keys pages) pages

-- the graph of the pages: each one, with its distance from the root
pub record IsCrawl (normalized : Links) (g : CrawlGraph) : Type 0 where
  pub all_pages : keys g.pages ≡ keys normalized
  pub distances :
      All (λ page. IsDistance (sample normalized) g.root page.0 page.1.depth_found) g.pages

keys-page_info :
    (pages : Links) (inlinks : List (String × ℕ)) (adjacency : Links) (D : Depths)
    → keys (page_info pages inlinks adjacency D) ≡ keys pages
unfolding page_info
keys-page_info [] inlinks adjacency D = refl
keys-page_info ((u, links) ∷ pages) inlinks adjacency D =
    ap (λ us. u ∷ us) (keys-page_info pages inlinks adjacency D)

module _ (normalized : Links) (chosen : String × Bool) where
  crawl : Depths → CrawlGraph
  crawl D = record {
    root = chosen.0;
    sampled = length normalized;
    root_fallback = chosen.1;
    pages =
        page_info normalized (count_inlinks (sample normalized) (at_zero (keys normalized)))
          (sample normalized) D;
  }

  crawl-IsCrawl :
      (D : Depths) → IsDone (sample normalized) chosen.0 D → IsCrawl normalized (crawl D)
  unfolding crawl page_info
  crawl-IsCrawl D done = record {
    all_pages = unfold crawl in keys-page_info normalized _ (sample normalized) D;
    distances =
        All-of_map _ _ (λ entry. done-IsDistance (sample normalized) chosen.0 D done entry.0)
          normalized;
  }

  crawled :
      contains (keys normalized) chosen.0 ≡ true
      → (g : CrawlGraph) × (with_depths normalized
            (sample normalized)
            chosen
            (depths (sample normalized) chosen.0)
          ≡ some g)
        × IsCrawl normalized g
  unfolding with_depths crawl
  crawled c =
      let known = λ (u v : String) (h : In v (links_of (sample normalized) u)).
        subst (λ us. In v us) (sym (keys-in_sample (keys normalized) normalized))
          (in_sample-known (keys normalized) normalized u v h) in
      let among =
        ap (λ us. contains us chosen.0) (keys-in_sample (keys normalized) normalized) ∙ c in
      let (D, q, done) = depths-IsDone (sample normalized) chosen.0 known among in
      (crawl D, rw q refl, crawl-IsCrawl D done)

from_normalized :
    (normalized : Links) (root : String)
    → let chosen = root_among root (keys normalized) in
      (g : CrawlGraph) × (with_depths normalized
          (sample normalized)
          chosen
          (depths (sample normalized) chosen.0)
        ≡ some g)
      × IsCrawl normalized g
unfolding with_depths depths page_info in_sample
from_normalized [] root = (_, refl, record { all_pages = refl; distances = tt })
from_normalized ((u, links) ∷ rest) root =
    crawled ((u, links) ∷ rest) (root_among root (u ∷ keys rest))
      (root_among-contains root u (keys rest))

module _ (normalize : String → Option String) where
  -- the URLs that a page brings can be split
  abbrev pub Splits : String → Type 0
  Splits u = is_some (normalize u) ≡ true

  abbrev pub PageSplits : String × List String → Type 0
  PageSplits (url, links) = Splits url × All Splits links

  split : (o : Option String) → is_some o ≡ true → (u : String) × (or_bad_url o ≡ ok u)
  split (some u) h = (u, refl)
  split none h = absurd cc

  unique_links-ok :
      (seen links : List String)
      → All Splits links
      → (us : List String) × (unique_links normalize seen links ≡ ok us)
  unfolding unique_links
  unique_links-ok seen [] h = ([], refl)
  unique_links-ok seen (link ∷ links) h =
      let (u, p) = split (normalize link) h.0 in
      let (skip, q) = unique_links-ok seen links h.1 in
      let (add, r) = unique_links-ok (u ∷ seen) links h.1 in
      elim (Bool-cases (contains seen u)) [
        | inl e ↦ (skip, rw (p, e) q)
        | inr e ↦ (u ∷ add, rw (p, e, r) refl)
      ]

  normalized_from-ok :
      (known pages : Links)
      → All PageSplits pages
      → (normalized : Links) × (normalized_from normalize known pages ≡ ok normalized)
  unfolding normalized_from
  normalized_from-ok known [] h = (known, refl)
  normalized_from-ok known ((url, links) ∷ pages) h =
      let (u, p) = split (normalize url) h.0.0 in
      let (us, q) = unique_links-ok [] links h.0.1 in
      let (normalized, r) = normalized_from-ok (insert u us known) pages h.1 in
      (normalized, rw (p, q) r)

  -- The crawl graph comes to be wherever the URLs of the pages, of their links and of the root can be split,
  -- and its depths are distances: the search ends and no assertion in it fails; the graph has every page
  -- of the sample in normal form, with the least number of links to sampled pages that lead to it from
  -- the root of the graph, or with no depth if none do.
  pub build_crawl_graph-IsCrawl :
      (pages : Links) (root : String)
      → All PageSplits pages
      → Splits root
      → (normalized : Links) × (normalized_from normalize [] pages ≡ ok normalized)
        × ((g : CrawlGraph) × (build_crawl_graph normalize pages root ≡ ok g)
            × IsCrawl normalized g)
  unfolding build_crawl_graph
  build_crawl_graph-IsCrawl pages root h k =
      let (normalized, p) = normalized_from-ok [] pages h in
      let (norm_root, q) = split (normalize root) k in
      let (g, r, crawl) = from_normalized normalized norm_root in
      (normalized, p, (g, rw (p, q) (ap or_no_depth r), crawl))
