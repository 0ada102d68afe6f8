-- ===== src/Rules/Evidence/Agents.antt =====
-- rules/evidence.py: the protocols for agents, and the instructions that a site gives them.
use scovant_core.Prelude.{[], ◌∷◌}
use scovant_core.Rules.Conform.{
  Annotation, any, none_type, boolean, integer, str, either, typed_dict, dict_of, list_of,
}
use scovant_core.Rules.Evidence.Shape.{hints_of, fetch_status}

abbrev pub mcp_handshake_evidence : Annotation
mcp_handshake_evidence = typed_dict (
    hints_of (
      ("attempted", boolean)
      ∷ ("ok", boolean)
      ∷ ("error", either str none_type)
      ∷ ("server_info", either (dict_of (either str none_type)) none_type)
      ∷ ("session_id", either str none_type)
      ∷ ("response_headers", dict_of str)
      ∷ ("init_status", either integer none_type)
      ∷ ("auth_required", boolean)
      ∷ []))

abbrev pub mcp_tool_evidence : Annotation
mcp_tool_evidence = typed_dict (
    hints_of (
      ("name", either str none_type)
      ∷ ("description", either str none_type)
      ∷ ("input_schema_keys", list_of str)
      ∷ ("deprecation", either (dict_of any) none_type)
      ∷ []))

abbrev pub mcp_discover_evidence : Annotation
mcp_discover_evidence = typed_dict (
    hints_of (
      ("attempted", boolean)
      ∷ ("ok", boolean)
      ∷ ("status", either integer none_type)
      ∷ ("error", either str none_type)
      ∷ ("era", str)
      ∷ ("requested_version", either str none_type)
      ∷ ("supported_versions", list_of str)
      ∷ ("capabilities_keys", list_of str)
      ∷ ("extensions", dict_of (dict_of any))
      ∷ ("extensions_truncated", boolean)
      ∷ ("instructions_present", boolean)
      ∷ []))

abbrev pub mcp_interface_evidence : Annotation
mcp_interface_evidence = typed_dict (
    hints_of (
      ("attempted", boolean)
      ∷ ("ok", boolean)
      ∷ ("server_info", either (dict_of (either str none_type)) none_type)
      ∷ ("tools", list_of mcp_tool_evidence)
      ∷ ("tool_count", integer)
      ∷ ("truncated", boolean)
      ∷ ("error", either str none_type)
      ∷ ("response_headers", dict_of str)
      ∷ ("init_status", either integer none_type)
      ∷ ("auth_required", boolean)
      ∷ ("transport", str)
      ∷ ("mode", str)
      ∷ ("probe_era", str)
      ∷ ("protocol_version", either str none_type)
      ∷ []))

abbrev pub mcp_oauth_evidence : Annotation
mcp_oauth_evidence = typed_dict (
    hints_of (
      ("attempted", boolean)
      ∷ ("discovered", boolean)
      ∷ ("resource_metadata", either (dict_of any) none_type)
      ∷ ("auth_server_metadata_ok", boolean)
      ∷ ("error", either str none_type)
      ∷ ("truncated", boolean)
      ∷ []))

abbrev pub mcp_evidence : Annotation
mcp_evidence = typed_dict (
    hints_of (
      ("exists", boolean)
      ∷ ("valid", boolean)
      ∷ ("endpoints", list_of str)
      ∷ ("declared_name", either str none_type)
      ∷ ("server_card", either boolean none_type)
      ∷ ("server_card_truncated", boolean)
      ∷ ("handshake", mcp_handshake_evidence)
      ∷ ("discover", mcp_discover_evidence)
      ∷ ("interface", mcp_interface_evidence)
      ∷ ("oauth", mcp_oauth_evidence)
      ∷ []))

abbrev pub webmcp_tool_evidence : Annotation
webmcp_tool_evidence = typed_dict (
    hints_of (
      ("name", either str none_type)
      ∷ ("description", either str none_type)
      ∷ ("input_schema_keys", list_of str)
      ∷ ("annotations", either (dict_of (either boolean none_type)) none_type)
      ∷ []))

abbrev pub webmcp_evidence : Annotation
webmcp_evidence = typed_dict (
    hints_of (
      ("attempted", boolean)
      ∷ ("present", boolean)
      ∷ ("tools", list_of webmcp_tool_evidence)
      ∷ ("tool_count", integer)
      ∷ ("truncated", boolean)
      ∷ ("error", either str none_type)
      ∷ ("nav_timeout", boolean)
      ∷ ("mode", either str none_type)
      ∷ ("support", dict_of any)
      ∷ ("pending", boolean)
      ∷ ("consumed", boolean)
      ∷ []))

abbrev pub ucp_evidence : Annotation
ucp_evidence = typed_dict (
    hints_of (
      ("exists", boolean)
      ∷ ("valid", boolean)
      ∷ ("validation_errors", list_of str)
      ∷ ("version", either str none_type)
      ∷ ("services", list_of str)
      ∷ ("capabilities", list_of str)
      ∷ ("has_checkout", boolean)
      ∷ ("transports", list_of str)
      ∷ ("signing_keys_valid", boolean)
      ∷ []))

abbrev pub agent_payment_protocol_evidence : Annotation
agent_payment_protocol_evidence =
    typed_dict
      (hints_of (("detected", either boolean none_type) ∷ ("evidence", either str none_type) ∷ []))

abbrev pub agent_payments_evidence : Annotation
agent_payments_evidence = typed_dict (
    hints_of (
      ("any_non_ucp", boolean)
      ∷ ("truncated", boolean)
      ∷ ("protocols", dict_of agent_payment_protocol_evidence)
      ∷ ("fetch_status", fetch_status)
      ∷ ("error", either str none_type)
      ∷ []))

abbrev pub discovery_surface_evidence : Annotation
discovery_surface_evidence = typed_dict (
    hints_of (
      ("exists", either boolean none_type)
      ∷ ("truncated", boolean)
      ∷ ("text", str)
      ∷ ("source", str)
      ∷ []))

abbrev pub agent_discovery_evidence : Annotation
agent_discovery_evidence = typed_dict (
    hints_of (
      ("any_found", boolean)
      ∷ ("surfaces", dict_of discovery_surface_evidence)
      ∷ ("truncated", boolean)
      ∷ ("fetch_status", fetch_status)
      ∷ ("error", either str none_type)
      ∷ []))

abbrev pub reference_resolution_evidence : Annotation
reference_resolution_evidence =
    typed_dict (hints_of (("checked", boolean) ∷ ("exists", boolean) ∷ ("error", str) ∷ []))

abbrev pub instruction_reference_evidence : Annotation
instruction_reference_evidence = typed_dict (
    hints_of (
      ("kind", str)
      ∷ ("name", str)
      ∷ ("in_install_command", boolean)
      ∷ ("status", str)
      ∷ ("resolution", either reference_resolution_evidence none_type)
      ∷ []))

abbrev pub instruction_integrity_evidence : Annotation
instruction_integrity_evidence = typed_dict (
    hints_of (
      ("attempted", boolean)
      ∷ ("checked", integer)
      ∷ ("references", list_of instruction_reference_evidence)
      ∷ ("remote_exec", list_of str)
      ∷ ("budget_exhausted", boolean)
      ∷ []))
