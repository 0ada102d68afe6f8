-- ===== src/Capabilities/Raises.antt =====
-- capabilities.py: on which evidence `derive_capabilities` raises.
use scovant_core.Prelude.{String, Bool, not, List, any, if◌then◌else◌, Result, ok, ◌>>=◌}
use scovant_core.Prelude.Json
use scovant_core.Prelude.Json.{Json, object, no_more, is_true, is_object}
use scovant_core.Rules.Python.{PyError, get_key}
use scovant_core.Capabilities.Derived.{page_reads}

abbrev when_not_dict : String → Json → Bool → Result PyError Bool
when_not_dict k v b = get_key k (if b then v else object no_more) >>= λ found. ok (is_true found)

-- every page can be read
abbrev pub pages_read : List Json → Bool
pages_read pages = not (any (λ p. not (page_reads p)) pages)
