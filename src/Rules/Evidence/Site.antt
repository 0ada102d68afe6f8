-- ===== src/Rules/Evidence/Site.antt =====
-- rules/evidence.py: what a site says of itself and of its links.
use scovant_core.Prelude.{[], ◌∷◌}
use scovant_core.Rules.Conform.{
  Annotation, any, none_type, boolean, integer, str, either, typed_dict, dict_of, list_of,
}
use scovant_core.Rules.Evidence.Shape.{hints_of, fetch_status}

abbrev pub content_signals_evidence : Annotation
content_signals_evidence = typed_dict (
    hints_of (
      ("present", boolean)
      ∷ ("declared", boolean)
      ∷ ("dimensions", dict_of str)
      ∷ ("syntax_errors", list_of str)
      ∷ []))

abbrev pub sitemap_evidence : Annotation
sitemap_evidence = typed_dict (
    hints_of (
      ("exists", boolean)
      ∷ ("valid", boolean)
      ∷ ("url", either str none_type)
      ∷ ("fetch_status", fetch_status)
      ∷ ("error", either str none_type)
      ∷ []))

abbrev pub llms_txt_evidence : Annotation
llms_txt_evidence = typed_dict (
    hints_of (
      ("exists", boolean)
      ∷ ("valid", boolean)
      ∷ ("urls", list_of str)
      ∷ ("errors", list_of str)
      ∷ []))

abbrev pub markdown_agents_evidence : Annotation
markdown_agents_evidence = typed_dict (
    hints_of (
      ("negotiation", boolean)
      ∷ ("mirror", boolean)
      ∷ ("markdown_tokens", either integer none_type)
      ∷ ("status", either integer none_type)
      ∷ ("content_type", either str none_type)
      ∷ ("vary", either str none_type)
      ∷ ("looks_markdown", boolean)
      ∷ ("body_looks_markdown", either boolean none_type)
      ∷ []))

abbrev pub link_headers_evidence : Annotation
link_headers_evidence = typed_dict (
    hints_of (
      ("present", boolean)
      ∷ ("rels", list_of str)
      ∷ ("agent_relevant", boolean)
      ∷ ("fetch_status", fetch_status)
      ∷ ("error", either str none_type)
      ∷ []))

abbrev pub machine_rep_evidence : Annotation
machine_rep_evidence = typed_dict (
    hints_of (
      ("attempted", boolean)
      ∷ ("status", either integer none_type)
      ∷ ("content_type", either str none_type)
      ∷ ("preference_applied", either boolean none_type)
      ∷ ("vary", either str none_type)
      ∷ ("alternates", list_of any)
      ∷ []))

abbrev pub crawl_graph_page : Annotation
crawl_graph_page = typed_dict (
    hints_of (
      ("inlinks", integer)
      ∷ ("outlinks_in_sample", integer)
      ∷ ("outlinks_raw", integer)
      ∷ ("depth", either integer none_type)
      ∷ []))

abbrev pub crawl_graph_evidence : Annotation
crawl_graph_evidence = typed_dict (
    hints_of (
      ("root", either str none_type)
      ∷ ("sampled", integer)
      ∷ ("root_fallback", boolean)
      ∷ ("pages", dict_of crawl_graph_page)
      ∷ []))

abbrev pub robots_evidence : Annotation
robots_evidence = dict_of any

abbrev pub declared_token : Annotation
declared_token =
    typed_dict (hints_of (("allowed", boolean) ∷ ("intent", str) ∷ ("engine", str) ∷ []))

abbrev pub ai_bot_policy_evidence : Annotation
ai_bot_policy_evidence =
    typed_dict (hints_of (("declared", dict_of declared_token) ∷ ("declared_any", boolean) ∷ []))

abbrev pub token_bloat_settings_evidence : Annotation
token_bloat_settings_evidence =
    typed_dict (hints_of (("enabled", boolean) ∷ ("low", integer) ∷ ("medium", integer) ∷ []))
