-- ===== src/Engine/Enabled/Probes.antt =====
-- The checks of side effects, tenants and policies of src/mcp_behaviour_guard/engine.py call nothing
-- but tools of the contract that may be invoked.
use mcp_behaviour_guard.Prelude.{
  String, true, not, ◌≡◌, Option, none, some, is_empty, Bool, List, ◌∷◌, refl, [], if◌then◌else◌,
  false, Option-cases, inl, inr, ◌==◌,
}
use mathlib.Core.List.{Memᴰ}
use mcp_behaviour_guard.Models.{
  ToolContract, TenantProbe, PolicyProbe, lookup, InvocationRecord, PolicyCheck,
  response_not_contains_env, response_not_contains, path_within, denied_check,
}
use mcp_behaviour_guard.Util.{Found, found, get_path}
use mcp_behaviour_guard.Engine.State.{GuardEngine, Raised, raise, done, EngineError}
use mcp_behaviour_guard.Engine.Claims.{has_effect_claims, required_effect_kinds}
use mcp_behaviour_guard.Engine.Observing.{Errors, observer_coverage}
use mcp_behaviour_guard.Correlation.{ObservationScope}
use mcp_behaviour_guard.Engine.Keeps.{
  Keeps, bind-Keeps, return-Keeps, throw-Keeps, if-Keeps, item-Keeps, read-Keeps, each-Keeps,
  RaisesOnly,
}
use mcp_behaviour_guard.Engine.Enabled.{
  is_callable, Respects, CallsEnabled, Expected, add_finding-Keeps, mem-IsCallable, IsDeclared,
  probe_identity-IsDeclared, lookup-Expected,
}
use mcp_behaviour_guard.Engine.Enabled.Calls.{
  invoke_tool-Keeps, invoke_with_mutation_observation-Keeps, collect_observers-Keeps,
  begin_observers-Keeps, new_observation_scope-Keeps, first_operation-Keeps,
}
use mcp_behaviour_guard.Engine.Enabled.Checks.{unless_skipped-Keeps}
use mcp_behaviour_guard.Engine.Effects.{
  report_unobserved, is_blocked, probe_effects, probe_if_begun, probe_as, check_tool_effects,
  check_tool_side_effects, probe_identity,
}
use mcp_behaviour_guard.Engine.Tenant.{
  value_or_throw, check_tenant_probe, check_tool_tenants, check_tenant_isolation,
}
use mcp_behaviour_guard.Engine.Policy.{
  or_throw, check_policy_probe, check_tool_policies, check_policy_probes, check_violated,
  any_violated, or_raised, path_is_within, within_roots, not_raised, is_under,
}
use mcp_behaviour_guard.Models.Accepted.{tenant_probe-IsIdentity, policy_probe-IsIdentity}
use mcp_behaviour_guard.Engine.Access.{is_true}
use mcp_behaviour_guard.Json.{Json, text}

module _ {World : Type 0} (guard : GuardEngine World) (Q : World → Type 0)
    (respects : Respects guard Q) where
  report_unobserved-Keeps :
      (tool_name : String) (tool : ToolContract)
      → Keeps (CallsEnabled guard Q) (Expected guard) (report_unobserved guard tool_name tool)
  unfolding report_unobserved
  report_unobserved-Keeps tool_name tool =
      if-Keeps (has_effect_claims tool) (λ e. add_finding-Keeps guard Q _) (λ e. return-Keeps _)

  probe_effects-Keeps :
      (test_id identity_name tool_name : String) (tool : ToolContract) (scope : ObservationScope)
      (errors : Errors)
      → is_callable guard tool_name ≡ true
      → Keeps
          (CallsEnabled guard Q)
          (Expected guard)
          (probe_effects guard test_id identity_name tool_name tool scope errors)
  unfolding probe_effects
  probe_effects-Keeps test_id identity_name tool_name tool scope errors h =
      bind-Keeps (first_operation-Keeps guard Q respects scope) (λ operation_id.
        bind-Keeps
          (invoke_tool-Keeps guard Q respects (some operation_id) test_id identity_name tool_name
            tool.probe_arguments h)
          (λ invocation.
            bind-Keeps
              (collect_observers-Keeps guard Q respects errors (some (required_effect_kinds tool))
                (some scope))
              (λ seen. add_finding-Keeps guard Q _)))

  probe_as-Keeps :
      (test_id tool_name : String) (tool : ToolContract) (identity : Option String)
      → is_callable guard tool_name ≡ true
      → ((name : String) → identity ≡ some name → IsDeclared guard guard.contract.identities name)
      → Keeps
          (CallsEnabled guard Q)
          (Expected guard)
          (probe_as guard test_id tool_name tool identity)
  unfolding probe_as probe_if_begun
  probe_as-Keeps test_id tool_name tool none h declared = return-Keeps _
  probe_as-Keeps test_id tool_name tool (some identity_name) h declared =
      item-Keeps (lookup identity_name guard.contract.identities)
        (lookup-Expected guard identity_name guard.contract.identities
          (declared identity_name refl))
        (λ identity e. bind-Keeps (new_observation_scope-Keeps guard Q respects test_id 1) (λ scope.
          bind-Keeps (begin_observers-Keeps guard Q respects) (λ errors.
            if-Keeps
              (is_blocked guard tool
                (observer_coverage guard.observers errors (some (required_effect_kinds tool))))
              (λ b. add_finding-Keeps guard Q _)
              (λ b. probe_effects-Keeps test_id identity_name tool_name tool scope errors h))))

  check_tool_effects-Keeps :
      (tool_name : String) (tool : ToolContract)
      → Memᴰ (tool_name, tool) guard.contract.tools
      → Keeps (CallsEnabled guard Q) (Expected guard) (check_tool_effects guard tool_name tool)
  unfolding check_tool_effects
  check_tool_effects-Keeps tool_name tool member =
      if-Keeps (not (has_effect_claims tool)) (λ e. return-Keeps _)
        (λ e. unless_skipped-Keeps guard Q respects tool (add_finding-Keeps guard Q _) (λ h.
          probe_as-Keeps _ tool_name tool (probe_identity tool)
            (mem-IsCallable guard Q tool_name tool member h)
            (probe_identity-IsDeclared guard tool_name tool member)))

  pub check_tool_side_effects-Keeps :
      Keeps (CallsEnabled guard Q) (Expected guard) (check_tool_side_effects guard)
  unfolding check_tool_side_effects
  check_tool_side_effects-Keeps =
      if-Keeps (is_empty guard.observers)
        (λ e. each-Keeps guard.contract.tools (λ t m. report_unobserved-Keeps t.0 t.1))
        (λ e. each-Keeps guard.contract.tools (λ t m. check_tool_effects-Keeps t.0 t.1 m))

  value_or_throw-Keeps :
      (value : Found) → Keeps (CallsEnabled guard Q) (Expected guard) (value_or_throw value)
  value_or_throw-Keeps (found v) = return-Keeps v
  value_or_throw-Keeps Found.index_error = throw-Keeps _ (λ accepted. refl)

  check_tenant_probe-Keeps :
      (tool_name identity_name : String) (probe : TenantProbe)
      → is_callable guard tool_name ≡ true
      → IsDeclared guard guard.contract.identities identity_name
      → Keeps
          (CallsEnabled guard Q)
          (Expected guard)
          (check_tenant_probe guard tool_name identity_name probe)
  unfolding check_tenant_probe
  check_tenant_probe-Keeps tool_name identity_name probe h declared =
      item-Keeps (lookup identity_name guard.contract.identities)
        (lookup-Expected guard identity_name guard.contract.identities declared)
        (λ identity e.
          bind-Keeps (invoke_with_mutation_observation-Keeps guard Q respects _ _ _ _ h) (λ seen.
            bind-Keeps (value_or_throw-Keeps _)
              (λ observed. bind-Keeps (read-Keeps _) (λ control. add_finding-Keeps guard Q _))))

  check_tool_tenants-Keeps :
      (tool_name : String) (tool : ToolContract)
      → Memᴰ (tool_name, tool) guard.contract.tools
      → Keeps (CallsEnabled guard Q) (Expected guard) (check_tool_tenants guard tool_name tool)
  unfolding check_tool_tenants
  check_tool_tenants-Keeps tool_name tool member =
      unless_skipped-Keeps guard Q respects tool
        (each-Keeps tool.tenant_probes (λ p m. add_finding-Keeps guard Q _))
        (λ h. each-Keeps tool.tenant_probes (λ p m.
          check_tenant_probe-Keeps tool_name p.0 p.1
            (mem-IsCallable guard Q tool_name tool member h)
            (λ accepted.
              tenant_probe-IsIdentity guard.contract accepted tool_name tool member p m)))

  pub check_tenant_isolation-Keeps :
      Keeps (CallsEnabled guard Q) (Expected guard) (check_tenant_isolation guard)
  unfolding check_tenant_isolation
  check_tenant_isolation-Keeps =
      each-Keeps guard.contract.tools (λ t m. check_tool_tenants-Keeps t.0 t.1 m)

  or_raised-Expected :
      (first later : Raised Bool)
      → RaisesOnly (Expected guard) first
      → RaisesOnly (Expected guard) later
      → RaisesOnly (Expected guard) (or_raised first later)
  or_raised-Expected (raise e) later h k = h
  or_raised-Expected (done b) (raise e) h k = k
  or_raised-Expected (done b) (done c) h k = tt

  or_throw-Keeps :
      {A : Type 0} (r : Raised A)
      → RaisesOnly (Expected guard) r
      → Keeps (CallsEnabled guard Q) (Expected guard) (or_throw r)
  or_throw-Keeps (raise e) expected = throw-Keeps e expected
  or_throw-Keeps (done a) expected = return-Keeps a

  choice-Expected :
      (b : Bool) (first other : Raised Bool)
      → RaisesOnly (Expected guard) first
      → RaisesOnly (Expected guard) other
      → RaisesOnly (Expected guard) (if b then first else other)
  choice-Expected true first other h k = h
  choice-Expected false first other h k = k

  within_roots-Expected :
      (candidate roots : List String)
      → RaisesOnly (Expected guard) (within_roots guard.library candidate roots)
  unfolding within_roots
  within_roots-Expected candidate [] = tt
  within_roots-Expected candidate (root ∷ roots) =
      elim (Option-cases (guard.library.resolve_root root)) [
        | inl e ↦ rw e (λ accepted. refl)
        | inr (parts, e) ↦ rw e (
            choice-Expected (is_under candidate parts) (done true) _ tt
              (within_roots-Expected candidate roots))
      ]

  path_is_within-Expected :
      (value : Json) (roots : List String)
      → RaisesOnly (Expected guard) (path_is_within guard.library value roots)
  unfolding path_is_within
  path_is_within-Expected (text s) roots =
      choice-Expected (s == "") (done false) _ tt (elim (Option-cases (guard.library.resolve s)) [
        | inl e ↦ rw e tt
        | inr (candidate, e) ↦ rw e (within_roots-Expected candidate roots)
      ])
  path_is_within-Expected Json.null roots = tt
  path_is_within-Expected (Json.boolean b) roots = tt
  path_is_within-Expected (Json.integer n) roots = tt
  path_is_within-Expected (Json.float x) roots = tt
  path_is_within-Expected (Json.array xs) roots = tt
  path_is_within-Expected (Json.object fs) roots = tt

  not_raised-Expected :
      (r : Raised Bool) → RaisesOnly (Expected guard) r → RaisesOnly (Expected guard) (not_raised r)
  not_raised-Expected (raise e) h = h
  not_raised-Expected (done b) h = tt

  path-Expected :
      (roots : List String) (value : Found)
      → RaisesOnly (Expected guard) (elim value [
        | found raw_path ↦ not_raised (path_is_within guard.library raw_path roots)
        | Found.index_error ↦ raise EngineError.index_error
      ])
  path-Expected roots (found raw_path) =
      not_raised-Expected _ (path_is_within-Expected raw_path roots)
  path-Expected roots Found.index_error = λ accepted. refl

  check_violated-Expected :
      (environment : List (String × String)) (invocation : InvocationRecord) (check : PolicyCheck)
      → RaisesOnly (Expected guard) (check_violated guard.library environment invocation check)
  unfolding check_violated
  check_violated-Expected environment invocation denied_check = tt
  check_violated-Expected environment invocation (response_not_contains_env names) = tt
  check_violated-Expected environment invocation (response_not_contains values) = tt
  check_violated-Expected environment invocation (path_within response_path roots) =
      choice-Expected (is_true invocation.allowed) _ _
        (path-Expected roots (get_path invocation.response response_path)) tt

  any_violated-Expected :
      (environment : List (String × String)) (invocation : InvocationRecord)
      (checks : List PolicyCheck)
      → RaisesOnly (Expected guard) (any_violated guard.library environment invocation checks)
  unfolding any_violated
  any_violated-Expected environment invocation [] = tt
  any_violated-Expected environment invocation (check ∷ checks) =
      or_raised-Expected _ _ (check_violated-Expected environment invocation check)
        (any_violated-Expected environment invocation checks)

  check_policy_probe-Keeps :
      (tool_name : String) (probe : PolicyProbe)
      → is_callable guard tool_name ≡ true
      → IsDeclared guard guard.contract.identities probe.identity
      → Keeps (CallsEnabled guard Q) (Expected guard) (check_policy_probe guard tool_name probe)
  unfolding check_policy_probe
  check_policy_probe-Keeps tool_name probe h declared =
      item-Keeps (lookup probe.identity guard.contract.identities)
        (lookup-Expected guard probe.identity guard.contract.identities declared)
        (λ identity e.
          bind-Keeps (invoke_with_mutation_observation-Keeps guard Q respects _ _ _ _ h) (λ seen.
            bind-Keeps (or_throw-Keeps _ (any_violated-Expected _ seen.invocation probe.checks))
              (λ violated. bind-Keeps (read-Keeps _) (λ control. add_finding-Keeps guard Q _))))

  check_tool_policies-Keeps :
      (tool_name : String) (tool : ToolContract)
      → Memᴰ (tool_name, tool) guard.contract.tools
      → Keeps (CallsEnabled guard Q) (Expected guard) (check_tool_policies guard tool_name tool)
  unfolding check_tool_policies
  check_tool_policies-Keeps tool_name tool member =
      unless_skipped-Keeps guard Q respects tool
        (each-Keeps tool.policy_probes (λ p m. add_finding-Keeps guard Q _))
        (λ h. each-Keeps tool.policy_probes (λ p m.
          check_policy_probe-Keeps tool_name p (mem-IsCallable guard Q tool_name tool member h)
            (λ accepted.
              policy_probe-IsIdentity guard.contract accepted tool_name tool member p m)))

  pub check_policy_probes-Keeps :
      Keeps (CallsEnabled guard Q) (Expected guard) (check_policy_probes guard)
  unfolding check_policy_probes
  check_policy_probes-Keeps =
      each-Keeps guard.contract.tools (λ t m. check_tool_policies-Keeps t.0 t.1 m)
