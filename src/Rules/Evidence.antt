-- ===== src/Rules/Evidence.antt =====
-- rules/evidence.py: the shapes of the evidence that the rules read.
mod Shape
mod Site
mod Agents
mod Pages
use scovant_core.Prelude.{String, List, [], ◌∷◌}
use scovant_core.Rules.Conform.{
  Annotation, any, none_type, boolean, integer, str, literal, either, typed_dict, dict_of, list_of,
  Hints, no_hint, hint,
}
use scovant_core.Rules.Evidence.Shape.{hints_of}
pub use Site.{
  content_signals_evidence, sitemap_evidence, llms_txt_evidence, markdown_agents_evidence,
  link_headers_evidence, machine_rep_evidence, crawl_graph_page, crawl_graph_evidence,
  robots_evidence, declared_token, ai_bot_policy_evidence, token_bloat_settings_evidence,
}
pub use Agents.{
  mcp_handshake_evidence, mcp_tool_evidence, mcp_discover_evidence, mcp_interface_evidence,
  mcp_oauth_evidence, mcp_evidence, webmcp_tool_evidence, webmcp_evidence, ucp_evidence,
  agent_payment_protocol_evidence, agent_payments_evidence, discovery_surface_evidence,
  agent_discovery_evidence, reference_resolution_evidence, instruction_reference_evidence,
  instruction_integrity_evidence,
}
pub use Pages.{
  policy_links_evidence, og_meta_evidence, page_metadata_evidence, heading_evidence,
  semantic_signals_evidence, token_cost_evidence, content_block_evidence, page_evidence,
}

abbrev pub domain_evidence : Hints
domain_evidence = hints_of (
    ("content_signals", content_signals_evidence)
    ∷ ("sitemap", sitemap_evidence)
    ∷ ("robots", robots_evidence)
    ∷ ("ai_bot_policy", ai_bot_policy_evidence)
    ∷ ("llms_txt", llms_txt_evidence)
    ∷ ("markdown_agents", markdown_agents_evidence)
    ∷ ("link_headers", link_headers_evidence)
    ∷ ("machine_rep", machine_rep_evidence)
    ∷ ("crawl_graph", crawl_graph_evidence)
    ∷ ("pages_scored", integer)
    ∷ ("token_bloat_settings", token_bloat_settings_evidence)
    ∷ ("content_pages_scored", integer)
    ∷ ("site_type", either str none_type)
    ∷ ("mcp", mcp_evidence)
    ∷ ("webmcp", webmcp_evidence)
    ∷ ("ucp", ucp_evidence)
    ∷ ("agent_payments", agent_payments_evidence)
    ∷ ("agent_discovery", agent_discovery_evidence)
    ∷ ("instruction_integrity", instruction_integrity_evidence)
    ∷ [])
