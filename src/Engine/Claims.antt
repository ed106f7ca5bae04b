-- ===== src/Engine/Claims.antt =====
-- `_effect_claims` and `_side_effect_violations` of src/mcp_behaviour_guard/engine.py.
pub mod Meaning
pub mod Violations
use mcp_behaviour_guard.Prelude.{
  String, Bool, Option, none, some, List, [], ◌∷◌, ◌++◌, any, contains, is_empty, if◌then◌else◌,
  not,
}
use mcp_behaviour_guard.Json.{Json, text, get?}
use mcp_behaviour_guard.Models.{
  SideEffectKind, network_request, filesystem_write, database_write, process_execution,
  message_dispatch, same_kind, ToolContract,
}
use mcp_behaviour_guard.Correlation.{SideEffectEvent}

pub data ClaimMode : Type 0 where
  deny_all allowlist : ClaimMode

pub record EffectClaim : Type 0 where
  pub mode : ClaimMode
  pub patterns : List String
  pub sources : List String

abbrev pub Claims : Type 0
Claims = List (SideEffectKind × EffectClaim)

-- claims.get(kind)
abbrev pub find_claim : SideEffectKind → Claims → Option EffectClaim
find_claim kind [] = none
find_claim kind ((k, claim) ∷ rest) = if same_kind k kind then some claim else find_claim kind rest

-- claims[kind] = claim
unfoldable pub set_claim : SideEffectKind → EffectClaim → Claims → Claims
set_claim kind claim [] = (kind, claim) ∷ []
set_claim kind claim ((k, old) ∷ rest) =
    let others = set_claim kind claim rest in
    if same_kind k kind then (k, claim) ∷ rest else (k, old) ∷ others

abbrev pub sources_of : Option EffectClaim → List String
sources_of none = []
sources_of (some claim) = claim.sources

abbrev pub add_source : String → List String → List String
add_source source sources = if contains sources source then sources else sources ++ source ∷ []

unfoldable pub add_deny : SideEffectKind → String → Claims → Claims
unfolding set_claim
add_deny kind source claims =
    set_claim kind
      (record {
        mode = deny_all;
        patterns = [];
        sources = add_source source (sources_of (find_claim kind claims));
      })
      claims

unfoldable pub add_denials : List SideEffectKind → String → Claims → Claims
unfolding add_deny
add_denials [] source claims = claims
add_denials (kind ∷ kinds) source claims = add_denials kinds source (add_deny kind source claims)

abbrev pub read_only_kinds : List SideEffectKind
read_only_kinds = filesystem_write ∷ database_write ∷ process_execution ∷ message_dispatch ∷ []

-- The rest of the round, where the field's list is not empty.
unfoldable pub allow_existing :
    SideEffectKind → String → List String → Option EffectClaim → Claims → Claims
unfolding set_claim
allow_existing kind field_name values none claims =
    set_claim kind (record { mode = allowlist; patterns = values; sources = field_name ∷ [] })
      claims
allow_existing kind field_name values (some existing) claims =
    if contains existing.sources field_name
    then claims
    else set_claim kind (record existing { sources = existing.sources ++ field_name ∷ [] }) claims

-- One round of the loop over `_ALLOWLIST_CLAIMS`.
unfoldable pub add_allowlist : SideEffectKind → String → Option (List String) → Claims → Claims
unfolding add_deny allow_existing
add_allowlist kind field_name none claims = claims
add_allowlist kind field_name (some []) claims = add_deny kind field_name claims
add_allowlist kind field_name (some (value ∷ values)) claims =
    allow_existing kind field_name (value ∷ values) (find_claim kind claims) claims

unfoldable pub effect_claims : ToolContract → Claims
unfolding add_denials add_allowlist
effect_claims contract =
    let start = if contract.read_only then add_denials read_only_kinds "read_only" [] else [] in
    let denied = add_denials contract.forbidden_side_effects "forbidden_side_effects" start in
    let network =
      add_allowlist network_request "allowed_network_destinations"
        contract.allowed_network_destinations denied in
    let filesystem =
      add_allowlist filesystem_write "allowed_filesystem_writes" contract.allowed_filesystem_writes
        network in
    add_allowlist process_execution "allowed_process_commands" contract.allowed_process_commands
      filesystem

abbrev pub kinds_of : Claims → List SideEffectKind
kinds_of [] = []
kinds_of ((kind, claim) ∷ rest) = kind ∷ kinds_of rest

unfoldable pub required_effect_kinds : ToolContract → List SideEffectKind
required_effect_kinds contract = kinds_of (effect_claims contract)

unfoldable pub has_effect_claims : ToolContract → Bool
has_effect_claims contract = not (is_empty (effect_claims contract))

-- The detail that an allowlist reads and the reason that a mismatch gives.
abbrev pub allowlist_rule : SideEffectKind → Option (String × String)
allowlist_rule network_request = some ("destination", "network destination is not allowlisted")
allowlist_rule filesystem_write = some ("path", "filesystem path is not allowlisted")
allowlist_rule process_execution = some ("command", "process command is not allowlisted")
allowlist_rule _ = none

-- What the engine takes from `fnmatch` and from `str` of a value that is no text.
pub record Matching : Type 0 where
  pub fnmatch : String → String → Bool
  pub str : Json → String

-- str(details.get(key, ""))
abbrev pub detail_text : Matching → Option Json → String
detail_text matching none = ""
detail_text matching (some (text s)) = s
detail_text matching (some v) = matching.str v

abbrev pub matches_any : Matching → String → List String → Bool
matches_any matching value = any (matching.fnmatch value)

abbrev pub rule_reason : Option (String × String) → String
rule_reason none = "side-effect kind is not allowed"
rule_reason (some (detail_key, reason)) = reason

abbrev pub denial_reason : SideEffectKind → List String → String
denial_reason kind sources =
    if contains sources "forbidden_side_effects"
    then "side-effect kind is explicitly forbidden"
    else if contains sources "read_only"
    then "read-only tool caused a state-changing side effect"
    else rule_reason (allowlist_rule kind)

unfoldable pub allowlist_reason :
    Matching → Option (String × String) → List String → SideEffectEvent → Option String
allowlist_reason matching none patterns event = some "side-effect kind is not allowed"
allowlist_reason matching (some (detail_key, reason)) patterns event =
    if matches_any matching (detail_text matching (get? detail_key event.details)) patterns
    then none
    else some reason

unfoldable pub reason_by :
    Matching → ClaimMode → List String → List String → SideEffectEvent → Option String
unfolding allowlist_reason
reason_by matching deny_all patterns sources event = some (denial_reason event.kind sources)
reason_by matching allowlist patterns sources event =
    allowlist_reason matching (allowlist_rule event.kind) patterns event

unfoldable pub violation_reason : Matching → Option EffectClaim → SideEffectEvent → Option String
unfolding reason_by
violation_reason matching none event = none
violation_reason matching (some claim) event =
    reason_by matching claim.mode claim.patterns claim.sources event

abbrev pub Violation : Type 0
Violation = String × SideEffectEvent

abbrev pub add_violation : Option String → SideEffectEvent → List Violation → List Violation
add_violation none event rest = rest
add_violation (some reason) event rest = (reason, event) ∷ rest

unfoldable pub violations_of : Matching → Claims → List SideEffectEvent → List Violation
unfolding violation_reason
violations_of matching claims [] = []
violations_of matching claims (event ∷ events) =
    add_violation (violation_reason matching (find_claim event.kind claims) event) event
      (violations_of matching claims events)

unfoldable pub side_effect_violations :
    Matching → ToolContract → List SideEffectEvent → List Violation
unfolding violations_of
side_effect_violations matching contract = violations_of matching (effect_claims contract)
