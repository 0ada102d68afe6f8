-- ===== src/Analysis/ProtocolAdoption.antt =====
-- analysis/protocol_adoption.py: which optional protocols a site publishes, from the checks' results.
mod Unmeasured
mod Tests
use scovant_core.Prelude.{
  String, Bool, true, false, not, ◌&&◌, Option, none, some, List, [], ◌∷◌, any, if◌then◌else◌,
  lookup, insert,
}
use scovant_core.Prelude.Json.{truthy, get}
use scovant_core.Models.{CheckResult, CheckStatus, is_defect}

pub data Adoption : Type 0 where
  present absent invalid not_checked : Adoption

-- the presence check, the key of its evidence that says whether something was found, and the validity
-- checks
pub record ProtocolRow : Type 0 where
  pub presence : String
  pub key : Option String
  pub validity : List String

abbrev protocol_row : String → Option String → List String → ProtocolRow
protocol_row presence key validity = record { presence = presence; key = key; validity = validity }

-- `PROTOCOLS`
abbrev pub protocols : List String
protocols =
    "mcp" ∷ "webmcp" ∷ "ucp" ∷ "llms_txt" ∷ "openapi" ∷ "oauth" ∷ "content_signal" ∷ "security_txt"
    ∷ []

-- `_MAP`
abbrev pub adoption_map : List (String × ProtocolRow)
adoption_map =
    ("mcp", protocol_row "CORE-INTERFACE-001" (some "exists") ("CORE-INTERFACE-002" ∷ []))
    ∷ ("webmcp", protocol_row "CORE-INTERFACE-003" none ("CORE-INTERFACE-004" ∷ []))
    ∷ ("ucp", protocol_row "CORE-INTERFACE-008" (some "exists") [])
    ∷ ("llms_txt", protocol_row "CORE-ACCESS-009" none [])
    ∷ ("openapi", protocol_row "CORE-INTERFACE-005" (some "found_url") [])
    ∷ ("oauth", protocol_row "CORE-INTERFACE-007" none ("CORE-INTERFACE-006" ∷ []))
    ∷ ("content_signal", protocol_row "CORE-ACCESS-010" (some "declared") [])
    ∷ ("security_txt", protocol_row "CORE-TRUST-006" (some "found_url") [])
    ∷ []

-- `_found`
abbrev pub was_found : CheckResult → String → Bool
was_found r key = truthy (get key r.evidence)

-- the ambiguous status: nothing was found, where a key says so
abbrev pub missing : CheckResult → Option String → Bool
missing r none = false
missing r (some key) = not (was_found r key)

-- `_state` of a result, by its status
abbrev pub state_by : CheckStatus → CheckResult → List CheckResult → Option String → Adoption
state_by CheckStatus.error r validity key = not_checked
state_by CheckStatus.na r validity key = if not (truthy r.evidence) then not_checked else absent
state_by CheckStatus.pass r validity key =
    if any (λ v. is_defect v.status) validity then invalid else present
state_by CheckStatus.warn r validity key = if missing r key then absent else invalid
state_by CheckStatus.fail r validity key = if missing r key then absent else invalid

-- `_state`
abbrev pub adoption_state : Option CheckResult → List CheckResult → Option String → Adoption
adoption_state none validity key = not_checked
adoption_state (some r) validity key = state_by r.status r validity key

-- `{f.id: f for f in findings}`, on top of a dictionary
unfoldable pub results_by_id :
    List (String × CheckResult) → List CheckResult → List (String × CheckResult)
results_by_id known [] = known
results_by_id known (r ∷ rs) = results_by_id (insert r.id r known) rs

abbrev pub cons_found : Option CheckResult → List CheckResult → List CheckResult
cons_found none rs = rs
cons_found (some r) rs = r ∷ rs

-- `[by_id[i] for i in validity_ids if i in by_id]`
abbrev pub validity_of : List (String × CheckResult) → List String → List CheckResult
validity_of known [] = []
validity_of known (i ∷ ids) = cons_found (lookup i known) (validity_of known ids)

abbrev pub state_of : List (String × CheckResult) → ProtocolRow → Adoption
state_of known r = adoption_state (lookup r.presence known) (validity_of known r.validity) r.key

-- one turn of the loop, with `_MAP[proto]`
abbrev pub adopt :
    List (String × CheckResult)
    → String
    → Option ProtocolRow
    → List (String × Adoption)
    → Option (List (String × Adoption))
adopt known proto none out = none
adopt known proto (some r) out = some (insert proto (state_of known r) out)

-- the loop. `none`: a protocol without a row, which raises.
unfoldable pub adopt_each :
    List (String × CheckResult)
    → List String
    → Option (List (String × Adoption))
    → Option (List (String × Adoption))
adopt_each known protos none = none
adopt_each known [] (some out) = some out
adopt_each known (p ∷ ps) (some out) =
    adopt_each known ps (adopt known p (lookup p adoption_map) out)

-- `protocol_adoption`
unfoldable pub protocol_adoption : List CheckResult → Option (List (String × Adoption))
unfolding adopt_each results_by_id
protocol_adoption findings = adopt_each (results_by_id [] findings) protocols (some [])
