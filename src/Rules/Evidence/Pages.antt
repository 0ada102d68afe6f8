-- ===== src/Rules/Evidence/Pages.antt =====
-- rules/evidence.py: one page.
use scovant_core.Prelude.{[], ◌∷◌}
use scovant_core.Rules.Conform.{
  Annotation, any, none_type, boolean, integer, str, either, typed_dict, dict_of, list_of, Hints,
}
use scovant_core.Rules.Evidence.Shape.{hints_of}

abbrev pub policy_links_evidence : Annotation
policy_links_evidence = typed_dict (
    hints_of (
      ("returns_policy_url", either str none_type)
      ∷ ("shipping_policy_url", either str none_type)
      ∷ ("privacy_policy_url", either str none_type)
      ∷ ("terms_url", either str none_type)
      ∷ []))

abbrev pub og_meta_evidence : Annotation
og_meta_evidence = typed_dict (
    hints_of (
      ("og_title", either str none_type)
      ∷ ("og_description", either str none_type)
      ∷ ("og_image", either str none_type)
      ∷ ("og_url", either str none_type)
      ∷ []))

abbrev pub page_metadata_evidence : Annotation
page_metadata_evidence = typed_dict (
    hints_of (("robots_meta", either str none_type) ∷ ("canonical_url", either str none_type) ∷ []))

abbrev pub heading_evidence : Annotation
heading_evidence = typed_dict (hints_of (("level", str) ∷ ("text", str) ∷ []))

abbrev pub semantic_signals_evidence : Annotation
semantic_signals_evidence = typed_dict (
    hints_of (
      ("add_to_cart_found", boolean)
      ∷ ("interactive_elements_count", integer)
      ∷ ("labeled_elements_count", integer)
      ∷ ("has_aria_labels", boolean)
      ∷ ("signup_cta_found", boolean)
      ∷ []))

abbrev pub token_cost_evidence : Annotation
token_cost_evidence =
    typed_dict (hints_of (("total", integer) ∷ ("text", integer) ∷ ("skeleton", integer) ∷ []))

abbrev pub content_block_evidence : Annotation
content_block_evidence =
    typed_dict
      (hints_of (("heading", either str none_type) ∷ ("text", str) ∷ ("word_count", integer) ∷ []))

abbrev pub page_evidence : Hints
page_evidence = hints_of (
    ("metadata", either page_metadata_evidence none_type)
    ∷ ("http_status", either integer none_type)
    ∷ ("_http_status", either integer none_type)
    ∷ ("schema_org", list_of (dict_of any))
    ∷ ("visible_text", str)
    ∷ ("headings", list_of heading_evidence)
    ∷ ("landmark_tags", either (dict_of integer) none_type)
    ∷ ("semantic_signals", semantic_signals_evidence)
    ∷ ("token_cost", token_cost_evidence)
    ∷ ("product_data", either (dict_of any) none_type)
    ∷ ("policy_links", either policy_links_evidence none_type)
    ∷ ("og_meta", either og_meta_evidence none_type)
    ∷ ("content_blocks", list_of content_block_evidence)
    ∷ ("page_language", either str none_type)
    ∷ [])
