-- ===== src/Engine/Effects.antt =====
-- `_check_tool_side_effects` of src/mcp_behaviour_guard/engine.py.
use mcp_behaviour_guard.Prelude.{
  String, Bool, not, ◌&&◌, ◌||◌, Option, none, some, List, is_empty, ◌==◌, if◌then◌else◌,
}
use Prim.Native.String.{◌++◌ as ◌⧺◌}
use mcp_behaviour_guard.Engine.State.{
  ◌>>=◌, GuardEngine, Guard, each, add_finding, return, item_or_throw,
}
use mcp_behaviour_guard.SavedRun.Finding.{
  Status, Severity, Observation, failed, info, error, medium, passed, high, unavailable,
}
use mcp_behaviour_guard.Engine.Claims.{
  Violation, has_effect_claims, required_effect_kinds, side_effect_violations,
}
use mcp_behaviour_guard.Engine.Invoke.{
  first, new_observation_scope, collect_observers, begin_observers, tool_invocation_enabled,
  is_complete, lab_skip, first_operation,
}
use mcp_behaviour_guard.Engine.Recording.{invoke_tool}
use mcp_behaviour_guard.Models.{ToolContract, Finding, lookup}
use mcp_behaviour_guard.Engine.Observing.{observer_coverage, is_unavailable, Errors}
use mcp_behaviour_guard.Correlation.{ObservationScope}
use mcp_behaviour_guard.Engine.Access.{is_true}

abbrev pub behaviour_finding : String → Status → Severity → Observation → Finding
behaviour_finding test_id status severity observation = record {
  test_id = test_id;
  category = "runtime_behaviour";
  status = status;
  severity = severity;
  observation = observation;
}

-- The verdict on a probe that was called.
unfoldable pub effect_status : List Violation → Option Bool → Observation → Status
effect_status violations allowed observation =
    if not (is_empty violations)
    then failed
    else if is_true allowed && is_complete observation
    then passed
    else error

abbrev pub effect_severity : Status → Severity
effect_severity passed = info
effect_severity error = medium
effect_severity _ = high

-- tool.side_effect_identity or _first(tool.permitted_identities), where an empty name counts as
-- none.
abbrev pub nonempty_name : Option String → Option String
nonempty_name none = none
nonempty_name (some name) = if name == "" then none else some name

abbrev pub or_first : Option String → List String → Option String
or_first none names = nonempty_name (first names)
or_first (some name) names = some name

abbrev pub probe_identity : ToolContract → Option String
probe_identity tool = or_first (nonempty_name tool.side_effect_identity) tool.permitted_identities

module _ {World : Type 0} (guard : GuardEngine World) where
  abbrev pub effect_test_id : String → String
  effect_test_id tool_name = guard.library.upper_dashed ("BEHAVIOUR-" ⧺ tool_name)

  unfoldable pub report_unobserved : String → ToolContract → Guard World Unit
  unfolding has_effect_claims
  report_unobserved tool_name tool =
      if has_effect_claims tool
      then add_finding (behaviour_finding (effect_test_id tool_name) error medium unavailable)
      else return tt

  -- The observers are too bad to call the probe.
  unfoldable pub is_blocked : ToolContract → Observation → Bool
  is_blocked tool observation =
      is_unavailable observation || not tool.read_only && not (is_complete observation)

  unfoldable pub probe_effects :
      String → String → String → ToolContract → ObservationScope → Errors → Guard World Unit
  unfolding invoke_tool collect_observers side_effect_violations effect_status required_effect_kinds
  probe_effects test_id identity_name tool_name tool scope begin_errors = do
    operation_id ← first_operation guard scope
    invocation ←
        invoke_tool guard (some operation_id) test_id identity_name tool_name tool.probe_arguments
    seen ← collect_observers guard begin_errors (some (required_effect_kinds tool)) (some scope)
    let violations = side_effect_violations guard.library.matching tool seen.events
    let status = effect_status violations invocation.allowed seen.coverage
    add_finding (behaviour_finding test_id status (effect_severity status) seen.coverage)

  unfoldable pub probe_if_begun :
      String → String → String → ToolContract → ObservationScope → Errors → Guard World Unit
  unfolding observer_coverage required_effect_kinds is_blocked probe_effects
  probe_if_begun test_id identity_name tool_name tool scope begin_errors =
      let begun =
        observer_coverage guard.observers begin_errors (some (required_effect_kinds tool)) in
      if is_blocked tool begun
      then add_finding (behaviour_finding test_id error medium begun)
      else probe_effects test_id identity_name tool_name tool scope begin_errors

  -- From the identity on; the contract has been validated to declare it.
  unfoldable pub probe_as : String → String → ToolContract → Option String → Guard World Unit
  unfolding new_observation_scope begin_observers probe_if_begun
  probe_as test_id tool_name tool none = return tt
  probe_as test_id tool_name tool (some identity_name) = do
    identity ← item_or_throw (lookup identity_name guard.contract.identities)
    scope ← new_observation_scope guard test_id 1
    begin_errors ← begin_observers guard
    probe_if_begun test_id identity_name tool_name tool scope begin_errors

  unfoldable pub check_tool_effects : String → ToolContract → Guard World Unit
  unfolding has_effect_claims probe_as tool_invocation_enabled
  check_tool_effects tool_name tool =
      let test_id = effect_test_id tool_name in
      if not (has_effect_claims tool)
      then return tt
      else if not (tool_invocation_enabled guard tool)
      then add_finding (lab_skip test_id "runtime_behaviour")
      else probe_as test_id tool_name tool (probe_identity tool)

  unfoldable pub check_tool_side_effects : Guard World Unit
  unfolding each report_unobserved check_tool_effects
  check_tool_side_effects =
      if is_empty guard.observers
      then each (λ t. report_unobserved t.0 t.1) guard.contract.tools
      else each (λ t. check_tool_effects t.0 t.1) guard.contract.tools
