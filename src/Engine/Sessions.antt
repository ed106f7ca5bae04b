-- ===== src/Engine/Sessions.antt =====
-- `_check_session_isolation` and `_merge_observation_statuses` of
-- src/mcp_behaviour_guard/engine.py. The header that names a client's session is not modelled: what
-- a call does with its headers is the target's affair.
use mcp_behaviour_guard.Prelude.{
  String, Bool, true, false, not, ◌&&◌, Option, none, some, ◌==◌, if◌then◌else◌,
}
use mcp_behaviour_guard.Json.{Json, text, Fields, end, field}
use Prim.Native.String.{◌++◌ as ◌⧺◌}
use mcp_behaviour_guard.Engine.State.{
  GuardEngine, Guard, ◌>>=◌, each, add_finding, outside_call, item_or_throw,
}
use mcp_behaviour_guard.Client.{occurs_in}
use mcp_behaviour_guard.SavedRun.Finding.{Observation, complete, partial, unavailable, not_required}
use mcp_behaviour_guard.Models.{ExecutionStatus, not_attempted}
use mcp_behaviour_guard.SavedRun.Finding.{
  Observation, Status, Severity, failed, passed, medium, error, info,
}
use mcp_behaviour_guard.Models.{
  SessionIsolationTest, ExecutionStatus, Finding, lookup, ToolContract, not_attempted,
}
use mcp_behaviour_guard.Engine.Invoke.{
  ObservedCall, invoke_with_mutation_observation, tool_call_preflight, is_sufficient,
  tool_invocation_enabled, lab_skip,
}
use mcp_behaviour_guard.Engine.Access.{is_true}

unfoldable pub merge_observation_statuses : Observation → Observation → Observation
merge_observation_statuses not_required b = b
merge_observation_statuses a not_required = a
merge_observation_statuses unavailable b = unavailable
merge_observation_statuses a unavailable = unavailable
merge_observation_statuses partial b = partial
merge_observation_statuses a partial = partial
merge_observation_statuses complete complete = complete

abbrev pub session_finding : SessionIsolationTest → Status → Severity → Observation → Finding
session_finding test status severity observation = record {
  test_id = test.id;
  category = "session_isolation";
  status = status;
  severity = severity;
  observation = observation;
}

-- d[key] = value
unfoldable pub set_field : String → Json → Fields → Fields
set_field key value end = field key value end
set_field key value (field k v rest) =
    let others = set_field key value rest in
    if k == key then field k value rest else field k v others

abbrev pub is_attempted : ExecutionStatus → Bool
is_attempted not_attempted = false
is_attempted _ = true

-- The call was made and the observation may carry a verdict.
abbrev pub is_evidence : ObservedCall → Bool
is_evidence seen = is_attempted seen.invocation.execution && is_sufficient seen.observation

-- The verdict on the reading call.
unfoldable pub session_status : Bool → Bool → ObservedCall → Status
session_status leaked both_allowed seen =
    if leaked then failed else if is_evidence seen && both_allowed then passed else error

abbrev pub session_severity : Status → Severity → Severity
session_severity failed severity = severity
session_severity error severity = medium
session_severity _ severity = info

module _ {World : Type 0} (guard : GuardEngine World) where
  unfoldable pub finish_session :
      SessionIsolationTest → String → ObservedCall → ObservedCall → Guard World Unit
  unfolding session_status merge_observation_statuses
  finish_session test marker written seen =
      let leaked = occurs_in marker (guard.library.json_text seen.invocation.response) in
      let both_allowed = is_true written.invocation.allowed && is_true seen.invocation.allowed in
      let status = session_status leaked both_allowed seen in
      add_finding (
        session_finding test status (session_severity status test.severity)
          (merge_observation_statuses written.observation seen.observation))

  unfoldable pub read_session : SessionIsolationTest → String → ObservedCall → Guard World Unit
  unfolding invoke_with_mutation_observation finish_session
  read_session test marker written =
      if is_evidence written
      then (invoke_with_mutation_observation guard (test.id ⧺ "-READ") test.reader_identity
            test.read.tool test.read.arguments
          >>= finish_session test marker written)
      else add_finding (session_finding test error medium written.observation)

  unfoldable pub run_session : SessionIsolationTest → Guard World Unit
  unfolding invoke_with_mutation_observation set_field read_session
  run_session test = do
    marker_id ← outside_call guard.outside.fresh_id
    writer ← item_or_throw (lookup test.writer_identity guard.contract.identities)
    writer_session ← outside_call guard.outside.fresh_id
    reader ← item_or_throw (lookup test.reader_identity guard.contract.identities)
    reader_session ← outside_call guard.outside.fresh_id
    let marker = "guard-" ⧺ marker_id
    written ←
        invoke_with_mutation_observation guard (test.id ⧺ "-WRITE") test.writer_identity
          test.write.tool (set_field test.marker_argument (text marker) test.write.arguments)
    read_session test marker written

  -- What bars a step: the finding on it, or none.
  unfoldable pub step_bar : SessionIsolationTest → ToolContract → Option Finding
  unfolding tool_call_preflight tool_invocation_enabled
  step_bar test tool =
      let (allowed, (coverage, required)) = tool_call_preflight guard tool none in
      if allowed
      then none
      else if not (tool_invocation_enabled guard tool)
      then some (lab_skip test.id "session_isolation")
      else some (session_finding test error medium coverage)

  abbrev pub first_bar : Option Finding → Option Finding → Option Finding
  first_bar none second = second
  first_bar (some bar) second = some bar

  abbrev pub run_unless_barred : SessionIsolationTest → Option Finding → Guard World Unit
  run_unless_barred test (some bar) = add_finding bar
  run_unless_barred test none = run_session test

  unfoldable pub check_session : SessionIsolationTest → Guard World Unit
  unfolding step_bar run_session
  check_session test = do
    write_tool ← item_or_throw (lookup test.write.tool guard.contract.tools)
    read_tool ← item_or_throw (lookup test.read.tool guard.contract.tools)
    run_unless_barred test (first_bar (step_bar test write_tool) (step_bar test read_tool))

  unfoldable pub check_session_isolation : Guard World Unit
  unfolding each check_session
  check_session_isolation = each check_session guard.contract.session_tests
