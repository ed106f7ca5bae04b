-- ===== src/Engine/Enabled/Calls.antt =====
-- The calls of src/mcp_behaviour_guard/engine.py and the observers around them call a tool that may
-- be invoked, where they are given one.
use mcp_behaviour_guard.Prelude.{
  ◌&&◌, ◌||◌, ℕ, zero, suc, String, true, ◌≡◌, refl, ◌∙◌, ap, List, [], ◌∷◌, Option, none, some,
  Bool-cases, inl, inr, is_empty,
}
use mcp_behaviour_guard.Json.{Fields}
use mcp_behaviour_guard.Models.{InvocationRecord, ToolContract, SideEffectKind, lookup}
use mcp_behaviour_guard.Client.{invoke, ClientCall, Exchange}
use mcp_behaviour_guard.Client.Record.{invoke-tool}
use mcp_behaviour_guard.Correlation.{ObservationScope}
use mcp_behaviour_guard.Engine.State.{GuardEngine}
use mcp_behaviour_guard.Engine.Observing.{ObserverHandle, Errors, observer_coverage}
use mcp_behaviour_guard.Engine.Claims.{Violation, required_effect_kinds}
use mcp_behaviour_guard.Engine.Invoke.{
  collect_each, collect_observers, begin_each, begin_observers, fresh_ids, new_observation_scope,
  first_operation, invoke_plain, refuse_call, report_effects, call_in_window, call_if_begun,
  invoke_observed, observe_if_required, invoke_with_mutation_observation, not_attempted_record,
  is_complete, effects_finding,
}
use mcp_behaviour_guard.Engine.Recording.{invoke_tool, redact_record, correlates, call_for}
use mcp_behaviour_guard.Engine.Keeps.{Keeps, bind-Keeps, return-Keeps, throw-Keeps, if-Keeps}
use mcp_behaviour_guard.Engine.Enabled.{
  is_callable, Respects, CallsEnabled, Expected, outside_call-Keeps, add_finding-Keeps,
  record_invocation-Keeps,
}
use mcp_behaviour_guard.SavedRun.Finding.{Observation}

module _ {World : Type 0} (guard : GuardEngine World) (Q : World → Type 0)
    (respects : Respects guard Q) where
  redact_record-tool :
      (operation : Option String) (invocation : InvocationRecord)
      → (redact_record guard operation invocation).tool ≡ invocation.tool
  redact_record-tool none invocation = refl
  redact_record-tool (some operation_id) invocation = elim (Bool-cases (correlates guard)) [
    | inl e ↦ rw e refl
    | inr e ↦ rw e refl
  ]

  invoked-IsCallable :
      (operation : Option String) (call : ClientCall) (exchange : Exchange)
      → is_callable guard call.tool ≡ true
      → is_callable guard
          (redact_record guard operation (invoke guard.library.folding call exchange)).tool
        ≡ true
  invoked-IsCallable operation call exchange h =
      ap (is_callable guard) (
        redact_record-tool operation (invoke guard.library.folding call exchange)
        ∙ (invoke-tool guard.library.folding call exchange).0)
      ∙ h

  pub invoke_tool-Keeps :
      (operation : Option String) (test_id identity_name tool : String) (arguments : Fields)
      → is_callable guard tool ≡ true
      → Keeps
          (CallsEnabled guard Q)
          (Expected guard)
          (invoke_tool guard operation test_id identity_name tool arguments)
  unfolding invoke_tool
  invoke_tool-Keeps operation test_id identity_name tool arguments h =
      let call = call_for guard operation test_id identity_name tool arguments in
      bind-Keeps
        (outside_call-Keeps guard Q (guard.outside.exchange call) (respects.exchange call h))
        (λ exchange.
          bind-Keeps
            (record_invocation-Keeps guard Q operation
              (redact_record guard operation (invoke guard.library.folding call exchange))
              (invoked-IsCallable operation call exchange h))
            (λ _. return-Keeps _))

  begin_each-Keeps :
      (handles : List ObserverHandle)
      → Keeps (CallsEnabled guard Q) (Expected guard) (begin_each guard handles)
  unfolding begin_each
  begin_each-Keeps [] = return-Keeps _
  begin_each-Keeps (handle ∷ rest) =
      bind-Keeps (outside_call-Keeps guard Q (guard.outside.begin handle) (respects.begin handle))
        (λ outcome. bind-Keeps (begin_each-Keeps rest) (λ errors. return-Keeps _))

  pub begin_observers-Keeps : Keeps (CallsEnabled guard Q) (Expected guard) (begin_observers guard)
  unfolding begin_observers
  begin_observers-Keeps = begin_each-Keeps guard.observers

  collect_each-Keeps :
      (handles : List ObserverHandle)
      → Keeps (CallsEnabled guard Q) (Expected guard) (collect_each guard handles)
  unfolding collect_each
  collect_each-Keeps [] = return-Keeps _
  collect_each-Keeps (handle ∷ rest) =
      bind-Keeps
        (outside_call-Keeps guard Q (guard.outside.collect handle) (respects.collect handle))
        (λ outcome. bind-Keeps (collect_each-Keeps rest) (λ outcomes. return-Keeps _))

  pub collect_observers-Keeps :
      (errors : Errors) (required : Option (List SideEffectKind)) (scope : Option ObservationScope)
      → Keeps
          (CallsEnabled guard Q)
          (Expected guard)
          (collect_observers guard errors required scope)
  unfolding collect_observers
  collect_observers-Keeps errors required scope =
      bind-Keeps (collect_each-Keeps _) (λ outcomes. return-Keeps _)

  fresh_ids-Keeps : (n : ℕ) → Keeps (CallsEnabled guard Q) (Expected guard) (fresh_ids guard n)
  unfolding fresh_ids
  fresh_ids-Keeps zero = return-Keeps _
  fresh_ids-Keeps (suc n) =
      bind-Keeps (outside_call-Keeps guard Q guard.outside.fresh_id respects.fresh_id)
        (λ first_id. bind-Keeps (fresh_ids-Keeps n) (λ rest. return-Keeps _))

  pub new_observation_scope-Keeps :
      (test_id : String) (count : ℕ)
      → Keeps (CallsEnabled guard Q) (Expected guard) (new_observation_scope guard test_id count)
  unfolding new_observation_scope
  new_observation_scope-Keeps test_id count =
      bind-Keeps (outside_call-Keeps guard Q guard.outside.fresh_id respects.fresh_id)
        (λ window_id. bind-Keeps (fresh_ids-Keeps count) (λ ids. return-Keeps _))

  pub first_operation-Keeps :
      (scope : ObservationScope)
      → Keeps (CallsEnabled guard Q) (Expected guard) (first_operation guard scope)
  first_operation-Keeps scope = first_of scope.operation_ids
    where
      first_of :
          (ids : List String)
          → Keeps
              (CallsEnabled guard Q)
              (Expected guard)
              (first_operation guard (record scope { operation_ids = ids }))
      first_of [] = throw-Keeps _ (λ accepted. refl)
      first_of (operation_id ∷ rest) = return-Keeps _

  report_effects-Keeps :
      (test_id : String) (violations : List Violation) (observation : Observation)
      → Keeps
          (CallsEnabled guard Q)
          (Expected guard)
          (report_effects guard test_id violations observation)
  unfolding report_effects
  report_effects-Keeps test_id violations observation =
      if-Keeps (is_empty violations && is_complete observation) (λ e. return-Keeps _)
        (λ e. add_finding-Keeps guard Q (effects_finding test_id violations observation))

  -- The calls of a check, with and without observation.
  module _ (test_id identity_name tool : String) (arguments : Fields)
      (h : is_callable guard tool ≡ true) where
    invoke_plain-Keeps :
        Keeps
          (CallsEnabled guard Q)
          (Expected guard)
          (invoke_plain guard test_id identity_name tool arguments)
    unfolding invoke_plain
    invoke_plain-Keeps =
        bind-Keeps (invoke_tool-Keeps none test_id identity_name tool arguments h)
          (λ invocation. return-Keeps _)

    call_in_window-Keeps :
        (tool_contract : ToolContract) (required : List SideEffectKind) (scope : ObservationScope)
        (errors : Errors)
        → Keeps (CallsEnabled guard Q) (Expected guard) (
            call_in_window guard test_id identity_name tool arguments tool_contract required scope
              errors)
    unfolding call_in_window
    call_in_window-Keeps tool_contract required scope errors =
        bind-Keeps (first_operation-Keeps scope) (λ operation_id.
          bind-Keeps (invoke_tool-Keeps (some operation_id) test_id identity_name tool arguments h)
            (λ invocation.
              bind-Keeps (collect_observers-Keeps errors (some required) (some scope))
                (λ seen. bind-Keeps (report_effects-Keeps _ _ _) (λ _. return-Keeps _))))

    refuse_call-Keeps :
        (observation : Observation)
        → Keeps
            (CallsEnabled guard Q)
            (Expected guard)
            (refuse_call guard test_id identity_name tool arguments observation)
    unfolding refuse_call
    refuse_call-Keeps observation =
        bind-Keeps
          (record_invocation-Keeps guard Q none
            (not_attempted_record test_id identity_name tool arguments observation) h)
          (λ _. return-Keeps _)

    call_if_begun-Keeps :
        (tool_contract : ToolContract) (required : List SideEffectKind) (scope : ObservationScope)
        (errors : Errors)
        → Keeps (CallsEnabled guard Q) (Expected guard) (
            call_if_begun guard test_id identity_name tool arguments tool_contract required scope
              errors)
    unfolding call_if_begun
    call_if_begun-Keeps tool_contract required scope errors =
        let begun = observer_coverage guard.observers errors (some required) in
        if-Keeps (is_complete begun) (λ e. call_in_window-Keeps tool_contract required scope errors)
          (λ e. refuse_call-Keeps begun)

    observe_if_required-Keeps :
        (tool_contract : ToolContract)
        → Keeps
            (CallsEnabled guard Q)
            (Expected guard)
            (observe_if_required guard test_id identity_name tool arguments tool_contract)
    unfolding observe_if_required invoke_observed
    observe_if_required-Keeps tool_contract =
        let required = required_effect_kinds tool_contract in
        if-Keeps (tool_contract.read_only || is_empty required) (λ e. invoke_plain-Keeps)
          (λ e. bind-Keeps (new_observation_scope-Keeps test_id 1) (λ scope.
            bind-Keeps begin_observers-Keeps
              (λ errors. call_if_begun-Keeps tool_contract required scope errors)))

    invoke_found-Keeps :
        (found : Option ToolContract)
        → Keeps (CallsEnabled guard Q) (Expected guard) (elim found [
          | none ↦ invoke_plain guard test_id identity_name tool arguments
          | some tool_contract ↦
              observe_if_required guard test_id identity_name tool arguments tool_contract
        ])
    invoke_found-Keeps none = invoke_plain-Keeps
    invoke_found-Keeps (some tool_contract) = observe_if_required-Keeps tool_contract

    pub invoke_with_mutation_observation-Keeps :
        Keeps
          (CallsEnabled guard Q)
          (Expected guard)
          (invoke_with_mutation_observation guard test_id identity_name tool arguments)
    unfolding invoke_with_mutation_observation
    invoke_with_mutation_observation-Keeps = invoke_found-Keeps (lookup tool guard.contract.tools)
