-- ===== src/Models/References.antt =====
-- `Contract.references_exist` of src/mcp_behaviour_guard/models.py, without the independence of the
-- observers' sources. `none` is that it raises nothing.
use mcp_behaviour_guard.Prelude.{
  String, Bool, not, ◌&&◌, ◌||◌, Option, none, some, List, [], ◌∷◌, is_empty, contains,
  if◌then◌else◌, ◌==◌, false,
}
use mcp_behaviour_guard.Prelude.Table.{fetch_all}
use mcp_behaviour_guard.Models.{
  Contract, ToolContract, PolicyProbe, SessionIsolationTest, TemporalIntegritySpec, names_of,
  lookup,
}

-- The fixed part of each message.
pub data ReferenceError : Type 0 where
  missing_identities unknown_side_effect_identity unknown_tenant_probe : String → ReferenceError
  unknown_policy_identity : String → String → ReferenceError
  unknown_session_identity unknown_session_tool : String → ReferenceError
  no_driver_tool unknown_driver_tool unknown_temporal_identity driver_not_read_only
        identity_not_permitted nothing_monitored :
      ReferenceError

-- The first statement that raises.
abbrev pub or_else : Option ReferenceError → Option ReferenceError → Option ReferenceError
or_else none later = later
or_else (some e) later = some e

abbrev pub raise_if : Bool → ReferenceError → Option ReferenceError
raise_if wrong e = if wrong then some e else none

-- set(names) - known
unfoldable pub missing_names : List String → List String → List String
unfolding fetch_all
missing_names known names = fetch_all (λ name. not (contains known name)) names

-- `name and name not in known`
abbrev pub is_unknown : List String → Option String → Bool
is_unknown known none = false
is_unknown known (some name) = not (name == "") && not (contains known name)

unfoldable pub policy_errors : List String → String → List PolicyProbe → Option ReferenceError
policy_errors identities tool_name [] = none
policy_errors identities tool_name (probe ∷ probes) =
    or_else
      (raise_if (not (contains identities probe.identity))
        (unknown_policy_identity tool_name probe.id))
      (policy_errors identities tool_name probes)

unfoldable pub tool_errors : List String → String → ToolContract → Option ReferenceError
unfolding missing_names policy_errors
tool_errors identities tool_name tool =
    or_else
      (raise_if (not (is_empty (missing_names identities tool.permitted_identities)))
        (missing_identities tool_name))
      (or_else
        (raise_if (is_unknown identities tool.side_effect_identity)
          (unknown_side_effect_identity tool_name))
        (or_else
          (raise_if (not (is_empty (missing_names identities (names_of tool.tenant_probes))))
            (unknown_tenant_probe tool_name))
          (policy_errors identities tool_name tool.policy_probes)))

unfoldable pub tools_errors : List String → List (String × ToolContract) → Option ReferenceError
unfolding tool_errors
tools_errors identities [] = none
tools_errors identities ((tool_name, tool) ∷ tools) =
    or_else (tool_errors identities tool_name tool) (tools_errors identities tools)

unfoldable pub session_errors :
    List String → List String → List SessionIsolationTest → Option ReferenceError
session_errors identities tools [] = none
session_errors identities tools (test ∷ tests) =
    or_else
      (raise_if
        (not (contains identities test.writer_identity)
          || not (contains identities test.reader_identity))
        (unknown_session_identity test.id))
      (or_else
        (raise_if (not (contains tools test.write.tool) || not (contains tools test.read.tool))
          (unknown_session_tool test.id))
        (session_errors identities tools tests))

-- `temporal.identity and temporal.identity not in permitted`, where the driver is a tool.
unfoldable pub driver_errors :
    List String → TemporalIntegritySpec → Option ToolContract → Option ReferenceError
driver_errors identities temporal none = some unknown_driver_tool
driver_errors identities temporal (some driver) =
    or_else (raise_if (is_unknown identities temporal.identity) unknown_temporal_identity) (
      or_else (raise_if (not driver.read_only) driver_not_read_only) (
        or_else
          (raise_if (is_unknown driver.permitted_identities temporal.identity)
            identity_not_permitted)
          (raise_if
            (not
              (temporal.monitor_tools || (temporal.monitor_prompts || temporal.monitor_resources)))
            nothing_monitored)))

abbrev pub named_driver_errors :
    List String
    → List (String × ToolContract)
    → TemporalIntegritySpec
    → Option String
    → Option ReferenceError
named_driver_errors identities tools temporal none = some no_driver_tool
named_driver_errors identities tools temporal (some name) =
    if name == ""
    then some no_driver_tool
    else driver_errors identities temporal (lookup name tools)

unfoldable pub temporal_errors :
    List String → List (String × ToolContract) → TemporalIntegritySpec → Option ReferenceError
unfolding driver_errors
temporal_errors identities tools temporal =
    if temporal.enabled
    then named_driver_errors identities tools temporal temporal.driver_tool
    else none

unfoldable pub references_exist : Contract → Option ReferenceError
unfolding tools_errors session_errors temporal_errors
references_exist contract =
    let identities = names_of contract.identities in
    or_else (tools_errors identities contract.tools) (
      or_else (session_errors identities (names_of contract.tools) contract.session_tests)
        (temporal_errors identities contract.tools contract.temporal_integrity))
