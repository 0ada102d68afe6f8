-- ===== src/Lib.antt =====
-- Scovant Core: a scanner that asks how ready a site is for AI agents. A model of its core in total
-- functions, and theorems about them.
--
-- THE PROGRAM. A scan (`src/scovant_core/engine.py`) picks the registered checks that its options
-- select, and runs each one on a store of evidence (`evidence.py`). The store asks a gatherer for what it
-- does not have; a gatherer reads the site through the secure client (`security/client.py`), whose
-- requests pass the URL checks (`security/url_safety.py`) and a transport that connects to the address
-- it has checked (`security/pinned_transport.py`). A check (`checks/base.py`) gives a result with a
-- status, and degrades to ERROR where its evidence fails or its body raises. Beside the checks, the
-- registered rules (`rules/base.py`) are evaluated on the gathered pages (`r2/evaluate.py`): each gives
-- an outcome (`r2/technical.py`), gated by what the site is known to offer (`capabilities.py`), and the
-- outcomes are rated (`r2/score.py`) under a policy (`r2/policy.py`) and a manifest of rules
-- (`r2/manifest.py`). The report holds the findings, their counts, and the block of Technical Readiness
-- (`r2/readiness.py`). The rules read the evidence in a form that is documented (`rules/evidence.py`) and
-- that a reader brings about (`rules/conform.py`). A rule on crawlers reads the groups of robots.txt
-- (`parsers/robots.py`), rules on the sample of pages read a graph of its links
-- (`analysis/crawl_graph.py`). The report also says which optional protocols the site publishes
-- (`analysis/protocol_adoption.py`), from the results of the checks.
--
-- WHERE IT IS MODELLED. A file has the name of the Python module, in the case of this language, and its
-- functions have the names of the code's functions. All paths are below src/scovant_core/.
--   Models.antt             models.py: enumerations, CheckResult
--   Context.antt            context.py: ScanOptions, ScanContext
--   Owasp.antt              owasp.py: entry, parse_standards, for_rule
--   Capabilities.antt       capabilities.py: derive_capabilities, gate
--   Rules.antt              rules/base.py: probe_measured, register_rule, _conforming
--   Rules/Evidence.antt     rules/evidence.py: the documented form of each block of evidence, in
--                           Site, Agents and Pages
--   Rules/Conform.antt      rules/conform.py: conform
--   Rules/Conforming.antt   rules/conform.py: conform_page, conform_domain and their cache
--   Rules/Products.antt     rules/products.py
--   Rules/Structured.antt   rules/structured.py and the schema rule of rules/ucp.py: evaluate and measure
--   Rules/CrawlGraph.antt   rules/crawl_graph.py
--   Rules/RobotsPolicy.antt rules/robots_policy.py: AiCrawlerBlocked
--   Rules/Python.antt, Rules/FloatText.antt: the operations on values that the rules, the profile and the
--                           capabilities use, and the `float` of a text, exceptions as values
--   Parsers/Robots.antt     parsers/robots.py: parse_robots_txt; registry/ai_bots.py: the tokens
--   Analysis/ProtocolAdoption.antt analysis/protocol_adoption.py
--   Analysis/CrawlGraph.antt analysis/crawl_graph.py: build_crawl_graph
--   Evidence.antt           evidence.py: EvidenceStore.get, try_get, gathered
--   Profiles.antt           profiles.py: resolve_profile; apply_profile is `detected` of Engine.antt
--   Checks/Base.antt        checks/base.py: CoreCheck.run, result, na, error, applicable
--   Checks/Registry.antt    checks/registry.py: validate_registry
--   SecuritySummary.antt    security_summary.py: build_security_summary
--   Envelope.antt           envelope.py: map_verification_mode, the invariants of EvidenceEnvelope
--   Security/Policy.antt    security/policy.py
--   Security/Address.antt   security/url_safety.py: _ip_is_blocked, assert_public_address
--   Security/UrlSafety.antt security/url_safety.py: assert_safe_public_url
--   Security/Pinned.antt    security/pinned_transport.py: _pin, handle_request
--   Security/Client.antt    security/client.py: SecureClient.fetch
--   Engine.antt             engine.py: validate_selectors, selection, scan
--   R2/Outcome.antt         r2/outcome.py
--   R2/Policy.antt          r2/policy.py
--   R2/Manifest.antt        r2/manifest.py
--   R2/Score.antt           r2/score.py: the stages of score_r2, in its order, are Rows (index_outcomes, the
--                           page counts, the rows), Gates, Merge (root causes), Totals, Rating
--   R2/Technical.antt       r2/technical.py: domain_outcome, page_outcome, outcome_from_row, derived_gate;
--                           rule_spec and technical_manifest in Specs
--   R2/Evaluate.antt        r2/evaluate.py: rule_rows, technical_readiness
--   R2/Readiness.antt       r2/readiness.py: core_evidence, _reason, technical_report
-- The other children of these modules hold proofs, and each `Tests` holds runs on concrete inputs. Prelude
-- holds what they share: names of the libraries, lists and texts (`str.strip`, the order of `str`),
-- JSON values, sorting, exceptions as values, and floating-point numbers.
--
-- HOW IT IS MODELLED. State is passed explicitly: the store of evidence, the cache of pinned addresses,
-- and the client's log, cookie jar, byte total and clock. An exception is a value of `Result` with one
-- constructor for each `raise`, or an `Option` where the code has one kind of failure. A dictionary is
-- an association list in the order of insertion, a set is a list.
--
-- Numbers. Counts and ratings are natural numbers. Where the code computes with floats (the score), the
-- number type is a parameter with the operations that the code uses, in the code's order: the interface
-- `Float` of Prelude/Float.antt. Theorems that compare numbers assume the laws of `IsMonotone`, which
-- rounding to nearest has on finite numbers: each operation is monotone, and the exact cases (times one,
-- plus zero) are exact. The theorem that a score is always given assumes `IsPositive`: a literal of two
-- decimals that is not zero is positive, and a sum of positive numbers is not zero.
-- Prelude/Float/Fixed.antt has an instance, millionths, that meets every law and
-- runs the code. NaN, infinities and overflow are left out.
--
-- Fuel. Three recursions count down. `hops`, the redirect loop of `fetch`, has `max_redirects + 1` turns; it
-- is proved below that no fetch runs out of them, since each redirect lengthens the chain by one and the
-- chain is tested against `max_redirects`. `decimal`, which writes a number in digits, has as many steps
-- as the number has units, which are more than its digits. `search_from`, the breadth-first search, has
-- one step more than there are pages; it is proved below that the search ends within them.
--
-- Parameters. What is not in the repository is an argument of the definitions that use it: `urlparse`,
-- `ipaddress` and `getaddrinfo` (the record `Library`), `urllib`'s parser of robots.txt, the network's
-- answers, the readings of the clock, the text of a value (`show`), and the addresses and the values of
-- the objects that the cache of conformed evidence keeps. So are the functions of the repository that are
-- not modelled and that modelled code calls: the bodies of gatherers, of checks and of most rules, which
-- may raise where the code catches, the normal form of a URL (`normalize`, in parsers/html.py, which may
-- raise), and the
-- search for a button that buys (`mentions_add_to_cart`). The theorems hold whatever these are, but for the
-- hypotheses that a theorem names.
--
-- WHAT IS NOT MODELLED. The bodies of most rules (those on products, those on the link graph and
-- AI_CRAWLER_BLOCKED are modelled, without the texts of their findings), of the checks and of the
-- gatherers, with the analyses and the parsers they call; the redaction of secrets and URLs; hashes
-- (`model_id`, `result_hash`, the digests); the adapter from gathered data to the rules' pages; the
-- rendering of reports, the command line and the servers; tables of catalog text. Texts are lowered,
-- stripped and matched as ASCII. Confidences of profiles are in
-- hundredths.
pub mod Prelude
pub mod Parsers
pub mod Analysis
pub mod Models
pub mod Context
pub mod Owasp
pub mod Capabilities
pub mod Rules
pub mod Evidence
pub mod Profiles
pub mod Checks
pub mod SecuritySummary
pub mod Envelope
pub mod Security
pub mod Engine
pub mod R2
