-- ===== src/Engine/Enabled/Windows.antt =====
-- The checks of sessions and replays of src/mcp_behaviour_guard/engine.py call nothing but
-- tools of the contract that may be invoked.
use mcp_behaviour_guard.Prelude.{
  ◌&&◌, String, true, false, ◌≡◌, refl, ◌∙◌, List, [], ◌∷◌, Option, none, some, Bool-cases, inl,
  inr, is_empty, arith, sym,
}
use mathlib.Core.List.{Memᴰ}
use mcp_behaviour_guard.Prelude.Option
use mcp_behaviour_guard.Json.{Fields}
use mcp_behaviour_guard.Models.{
  ToolContract, SessionIsolationTest, ReplayProbe, SideEffectKind, lookup, Finding,
}
use mcp_behaviour_guard.Engine.State.{GuardEngine}
use mcp_behaviour_guard.Engine.Claims.{Violation, required_effect_kinds}
use mcp_behaviour_guard.Engine.Observing.{Errors, Observed, observer_coverage}
use mcp_behaviour_guard.Correlation.{ObservationScope}
use mcp_behaviour_guard.Engine.Keeps.{
  Keeps, bind-Keeps, return-Keeps, if-Keeps, item-Keeps, each-Keeps,
}
use mcp_behaviour_guard.Engine.Enabled.{
  is_callable, Respects, CallsEnabled, Expected, outside_call-Keeps, add_finding-Keeps,
  mem-IsCallable, lookup-IsCallable, lookup-Expected, IsDeclared, probe_identity-IsDeclared,
}
use mcp_behaviour_guard.Engine.Enabled.Calls.{
  invoke_tool-Keeps, invoke_with_mutation_observation-Keeps, collect_observers-Keeps,
  begin_observers-Keeps, new_observation_scope-Keeps,
}
use mcp_behaviour_guard.Engine.Invoke.{
  tool_invocation_enabled, is_complete, ObservedCall, tool_call_preflight, lab_skip, is_sufficient,
}
use mcp_behaviour_guard.Engine.Sessions.{
  is_evidence, finish_session, read_session, run_session, step_bar, run_unless_barred, first_bar,
  check_session, check_session_isolation,
}
use mcp_behaviour_guard.Engine.Replay.{
  replay_enabled, invoke_each, report_policy, replay_in_window, replay_if_begun, run_replay,
  replay_as, check_tool_replay, check_replay_protection, policy_observation, with_kind,
}
use mcp_behaviour_guard.Models.Accepted.{session_test-names}

module _ {World : Type 0} (guard : GuardEngine World) (Q : World → Type 0)
    (respects : Respects guard Q) where
  step_bar-skip :
      (test : SessionIsolationTest) (tool : ToolContract)
      → tool_invocation_enabled guard tool ≡ false
      → step_bar guard test tool ≡ some (lab_skip test.id "session_isolation")
  unfolding step_bar tool_call_preflight
  step_bar-skip test tool h = rw h refl

  -- A step that nothing bars is one of a tool that may be invoked.
  step_bar-none :
      (test : SessionIsolationTest) (tool : ToolContract)
      → step_bar guard test tool ≡ none
      → tool_invocation_enabled guard tool ≡ true
  step_bar-none test tool e = elim (Bool-cases (tool_invocation_enabled guard tool)) [
    | inl h ↦ h
    | inr h ↦ absurd (Option.none-ne-some _ (sym e ∙ step_bar-skip test tool h))
  ]

  read_session-Keeps :
      (test : SessionIsolationTest) (marker : String) (written : ObservedCall)
      → is_callable guard test.read.tool ≡ true
      → Keeps (CallsEnabled guard Q) (Expected guard) (read_session guard test marker written)
  unfolding read_session finish_session
  read_session-Keeps test marker written h =
      if-Keeps (is_evidence written)
        (λ e.
          bind-Keeps (invoke_with_mutation_observation-Keeps guard Q respects _ _ _ _ h)
            (λ seen. add_finding-Keeps guard Q _))
        (λ e. add_finding-Keeps guard Q _)

  run_session-Keeps :
      (test : SessionIsolationTest)
      → is_callable guard test.write.tool ≡ true
      → is_callable guard test.read.tool ≡ true
      → Memᴰ test guard.contract.session_tests
      → Keeps (CallsEnabled guard Q) (Expected guard) (run_session guard test)
  unfolding run_session
  run_session-Keeps test w r m =
      bind-Keeps (outside_call-Keeps guard Q guard.outside.fresh_id respects.fresh_id) (λ marker_id.
        item-Keeps (lookup test.writer_identity guard.contract.identities)
          (lookup-Expected guard test.writer_identity guard.contract.identities
            (λ a. (session_test-names guard.contract a test m).0))
          (λ writer _.
            bind-Keeps (outside_call-Keeps guard Q guard.outside.fresh_id respects.fresh_id)
              (λ writer_session.
                item-Keeps (lookup test.reader_identity guard.contract.identities)
                  (lookup-Expected guard test.reader_identity guard.contract.identities
                    (λ a. (session_test-names guard.contract a test m).1))
                  (λ reader _.
                    bind-Keeps (outside_call-Keeps guard Q guard.outside.fresh_id respects.fresh_id)
                      (λ reader_session.
                        bind-Keeps
                          (invoke_with_mutation_observation-Keeps guard Q respects _ _ _ _ w)
                          (λ written. read_session-Keeps test _ written r))))))

  invoke_each-Keeps :
      (test_id identity_name tool_name : String) (arguments : Fields) (ids : List String)
      → is_callable guard tool_name ≡ true
      → Keeps
          (CallsEnabled guard Q)
          (Expected guard)
          (invoke_each guard test_id identity_name tool_name arguments ids)
  unfolding invoke_each
  invoke_each-Keeps test_id identity_name tool_name arguments [] h = return-Keeps _
  invoke_each-Keeps test_id identity_name tool_name arguments (operation_id ∷ rest) h =
      bind-Keeps
        (invoke_tool-Keeps guard Q respects (some operation_id) test_id identity_name tool_name
          arguments h)
        (λ invocation.
          bind-Keeps (invoke_each-Keeps test_id identity_name tool_name arguments rest h)
            (λ invocations. return-Keeps _))

  report_policy-Keeps :
      (test_id : String) (tool : ToolContract) (violations : List Violation) (seen : Observed)
      → Keeps
          (CallsEnabled guard Q)
          (Expected guard)
          (report_policy guard test_id tool violations seen)
  unfolding report_policy
  report_policy-Keeps test_id tool violations seen =
      let policy = policy_observation guard.observers seen.errors (required_effect_kinds tool) in
      if-Keeps (is_empty violations && is_sufficient policy) (λ e. return-Keeps _)
        (λ e. add_finding-Keeps guard Q _)

  replay_in_window-Keeps :
      (test_id identity_name tool_name : String) (tool : ToolContract) (probe : ReplayProbe)
      (required : List SideEffectKind) (scope : ObservationScope) (errors : Errors)
      → is_callable guard tool_name ≡ true
      → Keeps
          (CallsEnabled guard Q)
          (Expected guard)
          (replay_in_window guard test_id identity_name tool_name tool probe required scope errors)
  unfolding replay_in_window
  replay_in_window-Keeps test_id identity_name tool_name tool probe required scope errors h =
      bind-Keeps (invoke_each-Keeps test_id identity_name tool_name probe.arguments _ h)
        (λ invocations.
          bind-Keeps (collect_observers-Keeps guard Q respects errors (some required) (some scope))
            (λ seen.
              bind-Keeps (report_policy-Keeps test_id tool _ seen)
                (λ _. add_finding-Keeps guard Q _)))

  run_replay-Keeps :
      (test_id identity_name tool_name : String) (tool : ToolContract) (probe : ReplayProbe)
      (required : List SideEffectKind)
      → is_callable guard tool_name ≡ true
      → Keeps
          (CallsEnabled guard Q)
          (Expected guard)
          (run_replay guard test_id identity_name tool_name tool probe required)
  unfolding run_replay replay_if_begun
  run_replay-Keeps test_id identity_name tool_name tool probe required h =
      bind-Keeps (new_observation_scope-Keeps guard Q respects test_id probe.attempts) (λ scope.
        bind-Keeps (begin_observers-Keeps guard Q respects) (λ errors.
          if-Keeps (is_complete (observer_coverage guard.observers errors (some required)))
            (λ e.
              replay_in_window-Keeps test_id identity_name tool_name tool probe required scope
                errors h)
            (λ e. add_finding-Keeps guard Q _)))

  replay_as-Keeps :
      (test_id tool_name : String) (tool : ToolContract) (probe : ReplayProbe)
      (identity : Option String)
      → is_callable guard tool_name ≡ true
      → ((name : String) → identity ≡ some name → IsDeclared guard guard.contract.identities name)
      → Keeps
          (CallsEnabled guard Q)
          (Expected guard)
          (replay_as guard test_id tool_name tool probe identity)
  unfolding replay_as
  replay_as-Keeps test_id tool_name tool probe none h declared = return-Keeps _
  replay_as-Keeps test_id tool_name tool probe (some identity_name) h declared =
      item-Keeps (lookup identity_name guard.contract.identities)
        (lookup-Expected guard identity_name guard.contract.identities
          (declared identity_name refl))
        (λ identity e.
          if-Keeps (is_empty guard.observers) (λ b. add_finding-Keeps guard Q _)
            (λ b.
              if-Keeps
                (tool_call_preflight guard tool
                  (some (with_kind probe.event_kind (required_effect_kinds tool)))).0
                (λ c. run_replay-Keeps test_id identity_name tool_name tool probe _ h)
                (λ c. add_finding-Keeps guard Q _)))

  -- Where replays are enabled, every tool may be invoked.
  replay_enabled-tool :
      (tool : ToolContract)
      → replay_enabled guard ≡ true
      → tool_invocation_enabled guard tool ≡ true
  unfolding tool_invocation_enabled
  replay_enabled-tool tool h = ground arith

  check_tool_replay-Keeps :
      (tool_name : String) (tool : ToolContract)
      → Memᴰ (tool_name, tool) guard.contract.tools
      → Keeps (CallsEnabled guard Q) (Expected guard) (check_tool_replay guard tool_name tool)
  unfolding check_tool_replay
  check_tool_replay-Keeps tool_name tool member = replay_of tool.replay_probe
    where
      replay_of :
          (found : Option ReplayProbe)
          → Keeps
              (CallsEnabled guard Q)
              (Expected guard)
              (check_tool_replay guard tool_name (record tool { replay_probe = found }))
      replay_of none = return-Keeps _
      replay_of (some probe) =
          if-Keeps (replay_enabled guard)
            (λ e.
              replay_as-Keeps _ tool_name _ probe _
                (mem-IsCallable guard Q tool_name tool member (replay_enabled-tool tool e))
                (probe_identity-IsDeclared guard tool_name tool member))
            (λ e. add_finding-Keeps guard Q _)

  run_unless_barred-Keeps :
      (test : SessionIsolationTest) (write_bar read_bar : Option Finding)
      → (write_bar ≡ none → is_callable guard test.write.tool ≡ true)
      → (read_bar ≡ none → is_callable guard test.read.tool ≡ true)
      → Memᴰ test guard.contract.session_tests
      → Keeps
          (CallsEnabled guard Q)
          (Expected guard)
          (run_unless_barred guard test (first_bar guard write_bar read_bar))
  run_unless_barred-Keeps test (some bar) read_bar w r m = add_finding-Keeps guard Q _
  run_unless_barred-Keeps test none (some bar) w r m = add_finding-Keeps guard Q _
  run_unless_barred-Keeps test none none w r m = run_session-Keeps test (w refl) (r refl) m

  check_session-Keeps :
      (test : SessionIsolationTest)
      → Memᴰ test guard.contract.session_tests
      → Keeps (CallsEnabled guard Q) (Expected guard) (check_session guard test)
  unfolding check_session
  check_session-Keeps test m =
      item-Keeps (lookup test.write.tool guard.contract.tools)
        (lookup-Expected guard test.write.tool guard.contract.tools
          (λ a. (session_test-names guard.contract a test m).2))
        (λ write_tool w.
          item-Keeps (lookup test.read.tool guard.contract.tools)
            (lookup-Expected guard test.read.tool guard.contract.tools
              (λ a. (session_test-names guard.contract a test m).3))
            (λ read_tool r.
              run_unless_barred-Keeps test (step_bar guard test write_tool)
                (step_bar guard test read_tool)
                (λ e.
                  lookup-IsCallable guard Q test.write.tool write_tool w
                    (step_bar-none test write_tool e))
                (λ e.
                  lookup-IsCallable guard Q test.read.tool read_tool r
                    (step_bar-none test read_tool e))
                m))

  pub check_session_isolation-Keeps :
      Keeps (CallsEnabled guard Q) (Expected guard) (check_session_isolation guard)
  unfolding check_session_isolation
  check_session_isolation-Keeps =
      each-Keeps guard.contract.session_tests (λ test m. check_session-Keeps test m)

  pub check_replay_protection-Keeps :
      Keeps (CallsEnabled guard Q) (Expected guard) (check_replay_protection guard)
  unfolding check_replay_protection
  check_replay_protection-Keeps =
      each-Keeps guard.contract.tools (λ t m. check_tool_replay-Keeps t.0 t.1 m)
