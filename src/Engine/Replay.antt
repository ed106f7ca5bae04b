-- ===== src/Engine/Replay.antt =====
-- `_check_replay_protection` of src/mcp_behaviour_guard/engine.py. The calls of `asyncio.gather` are
-- made in the order of their operations; what the target makes of their overlap is the world's.
use mcp_behaviour_guard.Prelude.{
  ℕ, String, Bool, false, not, ◌&&◌, ◌||◌, Option, none, some, List, [], ◌∷◌, ◌++◌, length,
  is_empty, ltb, eqb, ◌==◌, if◌then◌else◌,
}
use mcp_behaviour_guard.Prelude.Table.{fetch_all}
use mcp_behaviour_guard.Json.{Json, text, Fields, get?}
use Prim.Native.String.{◌++◌ as ◌⧺◌}
use mcp_behaviour_guard.Engine.State.{
  ◌>>=◌, ◌>>◌, GuardEngine, Guard, each, return, item_or_throw, add_finding,
}
use mcp_behaviour_guard.SavedRun.Finding.{
  Status, Severity, Observation, failed, high, medium, not_required, error, info, skipped, passed,
  unavailable,
}
use mcp_behaviour_guard.Models.{
  SideEffectKind, ReplayProbe, InvocationRecord, ToolContract, has_kind, Finding, same_kind, lookup,
}
use mcp_behaviour_guard.Engine.Observing.{observer_coverage, ObserverHandle, Errors, Observed}
use mcp_behaviour_guard.Engine.Invoke.{
  collect_observers, new_observation_scope, tool_call_preflight, begin_observers, is_complete,
  is_sufficient, effects_finding,
}
use mcp_behaviour_guard.Engine.Recording.{invoke_tool}
use mcp_behaviour_guard.Engine.Claims.{required_effect_kinds, Violation, side_effect_violations}
use mcp_behaviour_guard.Engine.Effects.{nonempty_name, probe_identity}
use mcp_behaviour_guard.Correlation.{SideEffectEvent, ObservationScope}
use mcp_behaviour_guard.Engine.Access.{is_true}

abbrev pub replay_finding : String → Status → Severity → Observation → Finding
replay_finding test_id status severity observation = record {
  test_id = test_id;
  category = "replay";
  status = status;
  severity = severity;
  observation = observation;
}

-- kinds | {kind}
abbrev pub with_kind : SideEffectKind → List SideEffectKind → List SideEffectKind
with_kind kind kinds = if has_kind kinds kind then kinds else kinds ++ kind ∷ []

-- details.get("tool") == event_tool
abbrev pub names_tool : String → Option Json → Bool
names_tool tool (some (text s)) = s == tool
names_tool tool _ = false

abbrev pub event_tool_of : ReplayProbe → String → String
event_tool_of probe tool_name = elim (nonempty_name probe.event_tool) [
  | none ↦ tool_name
  | some event_tool ↦ event_tool
]

unfoldable pub matching_events : ReplayProbe → String → List SideEffectEvent → List SideEffectEvent
unfolding fetch_all
matching_events probe tool_name events =
    fetch_all
      (λ e.
        same_kind e.kind probe.event_kind
        && names_tool (event_tool_of probe tool_name) (get? "tool" e.details))
      events

unfoldable pub successful_count : List InvocationRecord → ℕ
unfolding fetch_all
successful_count invocations = length (fetch_all (λ i. is_true i.allowed) invocations)

-- len(matching) > maximum_events, then what is missing for a verdict.
unfoldable pub replay_status : ReplayProbe → ℕ → ℕ → Observation → Status
replay_status probe matching successful observation =
    if ltb probe.maximum_events matching
    then failed
    else if eqb successful 0 || (ltb matching probe.minimum_events || not (is_complete observation))
    then error
    else passed

abbrev pub replay_severity : Status → Severity
replay_severity failed = high
replay_severity error = medium
replay_severity _ = info

-- The effects of the calls that the tool's own claims cover.
unfoldable pub policy_observation : List ObserverHandle → Errors → List SideEffectKind → Observation
unfolding observer_coverage
policy_observation observers errors [] = not_required
policy_observation observers errors (kind ∷ kinds) =
    observer_coverage observers errors (some (kind ∷ kinds))

module _ {World : Type 0} (guard : GuardEngine World) where
  abbrev pub replay_test_id : String → String
  replay_test_id tool_name = guard.library.upper_dashed ("REPLAY-" ⧺ tool_name)

  abbrev pub replay_enabled : Bool
  replay_enabled =
      guard.contract.safety.destructive_tests
      && (guard.lab_mode || not guard.contract.safety.require_lab_mode)

  unfoldable pub invoke_each :
      String → String → String → Fields → List String → Guard World (List InvocationRecord)
  unfolding invoke_tool
  invoke_each test_id identity_name tool_name arguments [] = return []
  invoke_each test_id identity_name tool_name arguments (operation_id ∷ rest) = do
    invocation ← invoke_tool guard (some operation_id) test_id identity_name tool_name arguments
    invocations ← invoke_each test_id identity_name tool_name arguments rest
    return (invocation ∷ invocations)

  -- The finding `…-EFFECTS`: its observation is that of the whole window.
  unfoldable pub report_policy :
      String → ToolContract → List Violation → Observed → Guard World Unit
  unfolding policy_observation required_effect_kinds
  report_policy test_id tool violations seen =
      let policy = policy_observation guard.observers seen.errors (required_effect_kinds tool) in
      if is_empty violations && is_sufficient policy
      then return tt
      else add_finding (effects_finding test_id violations seen.coverage)

  unfoldable pub replay_in_window :
      String
      → String
      → String
      → ToolContract
      → ReplayProbe
      → List SideEffectKind
      → ObservationScope
      → Errors
      → Guard World Unit
  unfolding invoke_each collect_observers report_policy side_effect_violations matching_events
      successful_count replay_status
  replay_in_window test_id identity_name tool_name tool probe required scope begin_errors = do
    invocations ← invoke_each test_id identity_name tool_name probe.arguments scope.operation_ids
    seen ← collect_observers guard begin_errors (some required) (some scope)
    report_policy test_id tool (side_effect_violations guard.library.matching tool seen.events) seen
    let matching = length (matching_events probe tool_name seen.events)
    let status = replay_status probe matching (successful_count invocations) seen.coverage
    add_finding (replay_finding test_id status (replay_severity status) seen.coverage)

  unfoldable pub replay_if_begun :
      String
      → String
      → String
      → ToolContract
      → ReplayProbe
      → List SideEffectKind
      → ObservationScope
      → Errors
      → Guard World Unit
  unfolding replay_in_window observer_coverage
  replay_if_begun test_id identity_name tool_name tool probe required scope begin_errors =
      let begun = observer_coverage guard.observers begin_errors (some required) in
      if is_complete begun
      then replay_in_window test_id identity_name tool_name tool probe required scope begin_errors
      else add_finding (replay_finding test_id error medium begun)

  unfoldable pub run_replay :
      String → String → String → ToolContract → ReplayProbe → List SideEffectKind → Guard World Unit
  unfolding new_observation_scope begin_observers replay_if_begun
  run_replay test_id identity_name tool_name tool probe required = do
    scope ← new_observation_scope guard test_id probe.attempts
    begin_errors ← begin_observers guard
    replay_if_begun test_id identity_name tool_name tool probe required scope begin_errors

  -- From the identity on: it must be declared, there must be observers, and these must cover the
  -- probe's kind and the tool's claims.
  unfoldable pub replay_as :
      String → String → ToolContract → ReplayProbe → Option String → Guard World Unit
  unfolding tool_call_preflight run_replay required_effect_kinds
  replay_as test_id tool_name tool probe none = return tt
  replay_as test_id tool_name tool probe (some identity_name) =
      let wanted = with_kind probe.event_kind (required_effect_kinds tool) in
      let (allowed, (coverage, required)) = tool_call_preflight guard tool (some wanted) in
      do
        identity ← item_or_throw (lookup identity_name guard.contract.identities)
        if is_empty guard.observers
            then add_finding (replay_finding test_id error medium unavailable)
            else if allowed
            then run_replay test_id identity_name tool_name tool probe required
            else add_finding (replay_finding test_id error medium coverage)

  unfoldable pub check_tool_replay : String → ToolContract → Guard World Unit
  unfolding replay_as
  check_tool_replay tool_name tool = elim tool.replay_probe [
    | none ↦ return tt
    | some probe ↦
        if replay_enabled
        then replay_as (replay_test_id tool_name) tool_name tool probe (probe_identity tool)
        else add_finding (replay_finding (replay_test_id tool_name) skipped info not_required)
  ]

  unfoldable pub check_replay_protection : Guard World Unit
  unfolding each check_tool_replay
  check_replay_protection = each (λ t. check_tool_replay t.0 t.1) guard.contract.tools
