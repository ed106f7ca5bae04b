-- ===== src/Engine/Invoke.antt =====
-- The calls of src/mcp_behaviour_guard/engine.py: what the contract allows to be called, the
-- beginning and the collection of the observers, and a call of a state-changing tool inside one
-- window of observation. A cancelled task is not modelled, nor the locks that keep two runs from
-- sharing an observer.
use mcp_behaviour_guard.Prelude.{
  String, Bool, true, false, not, ◌&&◌, ◌||◌, Option, none, some, List, [], ◌∷◌, is_empty,
  if◌then◌else◌, ℕ, zero, suc,
}
use Prim.Native.String.{◌++◌ as ◌⧺◌}
use mcp_behaviour_guard.Json.{Fields, null}
use mcp_behaviour_guard.Engine.State.{
  ◌>>=◌, ◌>>◌, GuardEngine, Guard, return, outside_call, throw, index_error, add_finding,
}
use mcp_behaviour_guard.SavedRun.Finding.{
  Observation, skipped, info, not_required, complete, error, failed, medium, high, partial,
  unavailable,
}
use mcp_behaviour_guard.Models.{
  InvocationRecord, ToolContract, Finding, lookup, SideEffectKind, not_applicable, not_attempted,
}
use mcp_behaviour_guard.Correlation.{ObservationScope, SideEffectEvent}
use mcp_behaviour_guard.Engine.Claims.{required_effect_kinds, Violation, side_effect_violations}
use mcp_behaviour_guard.Engine.Observing.{
  ObserverHandle, Errors, settle_collection, observer_coverage, name_of, Collected, add_outcomes,
  Observed, is_healthy, Collection,
}
use mcp_behaviour_guard.Prelude.Table.{fetch_all}
use mcp_behaviour_guard.Engine.Recording.{record_invocation, invoke_tool}

-- The observation is one that a verdict may rest on.
abbrev pub is_sufficient : Observation → Bool
is_sufficient not_required = true
is_sufficient complete = true
is_sufficient _ = false

abbrev pub observation_value : Observation → String
observation_value complete = "complete"
observation_value partial = "partial"
observation_value unavailable = "unavailable"
observation_value not_required = "not_required"

abbrev pub is_complete : Observation → Bool
is_complete complete = true
is_complete _ = false

-- What a call gives the check that made it.
pub record ObservedCall : Type 0 where
  pub invocation : InvocationRecord
  pub events : List SideEffectEvent
  pub observation : Observation

-- _lab_skip
abbrev pub lab_skip : String → String → Finding
lab_skip test_id category = record {
  test_id = test_id;
  category = category;
  status = skipped;
  severity = info;
  observation = not_required;
}

abbrev pub note_begin : ObserverHandle → Option String → Errors → Errors
note_begin handle none errors = errors
note_begin handle (some message) errors = (name_of handle, "begin: " ⧺ message) ∷ errors

abbrev pub first : List String → Option String
first [] = none
first (x ∷ xs) = some x

abbrev pub not_attempted_record : String → String → String → Fields → Observation → InvocationRecord
not_attempted_record test_id identity_name tool arguments observation = record {
  test_id = test_id;
  tool = tool;
  identity = identity_name;
  arguments = arguments;
  allowed = none;
  authorization = not_applicable;
  execution = not_attempted;
  response = null;
  error =
      some ("not attempted: required side-effect observation was " ⧺ observation_value observation);
  session_id = none;
}

-- The finding `…-EFFECTS`, where there is something to report.
abbrev pub effects_finding : String → List Violation → Observation → Finding
effects_finding test_id violations observation = record {
  test_id = test_id ⧺ "-EFFECTS";
  category = "runtime_behaviour";
  status = if is_empty violations then error else failed;
  severity = if is_empty violations then medium else high;
  observation = observation;
}

module _ {World : Type 0} (guard : GuardEngine World) where
  unfoldable pub tool_invocation_enabled : ToolContract → Bool
  tool_invocation_enabled tool =
      tool.read_only
      || guard.contract.safety.destructive_tests
        && (guard.lab_mode || not guard.contract.safety.require_lab_mode)

  -- `_tool_call_preflight`, with the required kinds that the caller may give.
  unfoldable pub tool_call_preflight :
      ToolContract → Option (List SideEffectKind) → Bool × (Observation × List SideEffectKind)
  unfolding tool_invocation_enabled required_effect_kinds observer_coverage
  tool_call_preflight tool required_kinds =
      let own = if tool.read_only then [] else required_effect_kinds tool in
      let required : List SideEffectKind = elim required_kinds [
        | none ↦ own
        | some kinds ↦ kinds
      ] in
      let coverage = observer_coverage guard.observers [] (some required) in
      if not (tool_invocation_enabled tool)
      then (false, (not_required, []))
      else if is_empty required
      then (true, (not_required, []))
      else (is_complete coverage, (coverage, required))

  unfoldable pub begin_each : List ObserverHandle → Guard World Errors
  begin_each [] = return []
  begin_each (handle ∷ rest) = do
    outcome ← outside_call (guard.outside.begin handle)
    errors ← begin_each rest
    return (note_begin handle outcome errors)

  unfoldable pub begin_observers : Guard World Errors
  unfolding begin_each
  begin_observers = begin_each guard.observers

  unfoldable pub collect_each :
      List ObserverHandle → Guard World (List (ObserverHandle × Collected))
  collect_each [] = return []
  collect_each (handle ∷ rest) = do
    outcome ← outside_call (guard.outside.collect handle)
    outcomes ← collect_each rest
    return ((handle, outcome) ∷ outcomes)

  unfoldable pub collect_observers :
      Errors → Option (List SideEffectKind) → Option ObservationScope → Guard World Observed
  unfolding collect_each settle_collection add_outcomes fetch_all
  collect_observers begin_errors required scope =
      let healthy = fetch_all (is_healthy begin_errors) guard.observers in
      do
        outcomes ← collect_each healthy
        let start : Collection = record {
          events = [];
          errors = begin_errors;
          partial_observers = [];
        }
        return
            (settle_collection guard.observers required scope healthy (add_outcomes outcomes start))

  unfoldable pub fresh_ids : ℕ → Guard World (List String)
  fresh_ids zero = return []
  fresh_ids (suc n) = do
    first ← outside_call guard.outside.fresh_id
    rest ← fresh_ids n
    return (first ∷ rest)

  unfoldable pub new_observation_scope : String → ℕ → Guard World ObservationScope
  unfolding fresh_ids
  new_observation_scope test_id operation_count = do
    window_id ← outside_call guard.outside.fresh_id
    operation_ids ← fresh_ids operation_count
    return (record {
      run_id = guard.run_id;
      check_id = test_id;
      window_id = window_id;
      operation_ids = operation_ids;
    })

  -- scope.operation_ids[0]
  abbrev pub first_operation : ObservationScope → Guard World String
  first_operation scope = elim (first scope.operation_ids) [
    | none ↦ throw index_error
    | some operation_id ↦ return operation_id
  ]

  -- A call without observation.
  unfoldable pub invoke_plain : String → String → String → Fields → Guard World ObservedCall
  unfolding invoke_tool
  invoke_plain test_id identity_name tool arguments = do
    invocation ← invoke_tool guard none test_id identity_name tool arguments
    return (record { invocation = invocation; events = []; observation = not_required })

  -- The observers did not all begin: nothing is called.
  unfoldable pub refuse_call :
      String → String → String → Fields → Observation → Guard World ObservedCall
  unfolding record_invocation
  refuse_call test_id identity_name tool arguments observation =
      let invocation = not_attempted_record test_id identity_name tool arguments observation in
      do
        record_invocation guard none invocation
        return (record { invocation = invocation; events = []; observation = observation })

  unfoldable pub report_effects : String → List Violation → Observation → Guard World Unit
  report_effects test_id violations observation =
      if is_empty violations && is_complete observation
      then return tt
      else add_finding (effects_finding test_id violations observation)

  unfoldable pub call_in_window :
      String
      → String
      → String
      → Fields
      → ToolContract
      → List SideEffectKind
      → ObservationScope
      → Errors
      → Guard World ObservedCall
  unfolding invoke_tool collect_observers report_effects side_effect_violations
  call_in_window test_id identity_name tool arguments tool_contract required scope begin_errors = do
    operation_id ← first_operation scope
    invocation ← invoke_tool guard (some operation_id) test_id identity_name tool arguments
    seen ← collect_observers begin_errors (some required) (some scope)
    report_effects test_id (side_effect_violations guard.library.matching tool_contract seen.events)
        seen.coverage
    return (record { invocation = invocation; events = seen.events; observation = seen.coverage })

  unfoldable pub call_if_begun :
      String
      → String
      → String
      → Fields
      → ToolContract
      → List SideEffectKind
      → ObservationScope
      → Errors
      → Guard World ObservedCall
  unfolding refuse_call call_in_window observer_coverage
  call_if_begun test_id identity_name tool arguments tool_contract required scope begin_errors =
      let begun = observer_coverage guard.observers begin_errors (some required) in
      if is_complete begun
      then call_in_window test_id identity_name tool arguments tool_contract required scope
          begin_errors
      else refuse_call test_id identity_name tool arguments begun

  -- A call inside a window of observation.
  unfoldable pub invoke_observed :
      String
      → String
      → String
      → Fields
      → ToolContract
      → List SideEffectKind
      → Guard World ObservedCall
  unfolding new_observation_scope begin_observers call_if_begun
  invoke_observed test_id identity_name tool arguments tool_contract required = do
    scope ← new_observation_scope test_id 1
    begin_errors ← begin_observers
    call_if_begun test_id identity_name tool arguments tool_contract required scope begin_errors

  unfoldable pub observe_if_required :
      String → String → String → Fields → ToolContract → Guard World ObservedCall
  unfolding invoke_plain invoke_observed required_effect_kinds
  observe_if_required test_id identity_name tool arguments tool_contract =
      let required_kinds = required_effect_kinds tool_contract in
      if tool_contract.read_only || is_empty required_kinds
      then invoke_plain test_id identity_name tool arguments
      else invoke_observed test_id identity_name tool arguments tool_contract required_kinds

  -- `_invoke_with_mutation_observation`.
  unfoldable pub invoke_with_mutation_observation :
      String → String → String → Fields → Guard World ObservedCall
  unfolding invoke_plain observe_if_required
  invoke_with_mutation_observation test_id identity_name tool arguments =
      elim (lookup tool guard.contract.tools) [
        | none ↦ invoke_plain test_id identity_name tool arguments
        | some tool_contract ↦
            observe_if_required test_id identity_name tool arguments tool_contract
      ]
