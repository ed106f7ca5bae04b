-- ===== src/Engine/Enabled/Checks.antt =====
-- The check of access in src/mcp_behaviour_guard/engine.py calls nothing but tools of the contract that
-- may be invoked.
use mcp_behaviour_guard.Prelude.{
  String, Bool, true, false, not, ◌≡◌, List, [], ◌∷◌, if◌then◌else◌, arith,
}
use mathlib.Core.List.{Memᴰ}
use mcp_behaviour_guard.Models.{IdentitySpec, ToolContract}
use mcp_behaviour_guard.Engine.State.{GuardEngine, Guard}
use mcp_behaviour_guard.Engine.Keeps.{
  Keeps, bind-Keeps, return-Keeps, if-Keeps, change-Keeps, each-Keeps,
}
use mcp_behaviour_guard.Engine.Enabled.{
  is_callable, Respects, CallsEnabled, Expected, add_finding-Keeps, mem-IsCallable,
}
use mcp_behaviour_guard.Engine.Enabled.Calls.{invoke_with_mutation_observation-Keeps}
use mcp_behaviour_guard.Engine.Invoke.{tool_invocation_enabled}
use mcp_behaviour_guard.Engine.Access.{
  check_identities, skip_identities, check_tool_access, check_access_matrix, note_positive,
  permitted_first,
}

module _ {World : Type 0} (guard : GuardEngine World) (Q : World → Type 0)
    (respects : Respects guard Q) where
  -- A check of one tool runs its calls only where the tool may be invoked.
  pub unless_skipped-Keeps :
      {A : Type 0} {skip calls : Guard World A} (tool : ToolContract)
      → Keeps (CallsEnabled guard Q) (Expected guard) skip
      → (tool_invocation_enabled guard tool ≡ true
          → Keeps (CallsEnabled guard Q) (Expected guard) calls)
      → Keeps
          (CallsEnabled guard Q)
          (Expected guard)
          (if not (tool_invocation_enabled guard tool) then skip else calls)
  unless_skipped-Keeps tool h k =
      if-Keeps (not (tool_invocation_enabled guard tool)) (λ e. h) (λ e. k (ground arith))

  check_identities-Keeps :
      (tool_name : String) (tool : ToolContract) (identities : List (String × IdentitySpec))
      (positive : Bool)
      → is_callable guard tool_name ≡ true
      → Keeps
          (CallsEnabled guard Q)
          (Expected guard)
          (check_identities guard tool_name tool identities positive)
  unfolding check_identities
  check_identities-Keeps tool_name tool [] positive h = return-Keeps positive
  check_identities-Keeps tool_name tool ((identity_name, identity) ∷ rest) positive h =
      bind-Keeps (invoke_with_mutation_observation-Keeps guard Q respects _ _ _ _ h) (λ seen.
        bind-Keeps (note_positive-Keeps _) (λ _.
          bind-Keeps (add_finding-Keeps guard Q _)
            (λ _. check_identities-Keeps tool_name tool rest _ h)))
    where
      note_positive-Keeps :
          (control : Bool)
          → Keeps
              (CallsEnabled guard Q)
              (Expected guard)
              (note_positive guard control tool_name identity_name)
      note_positive-Keeps control =
          if-Keeps control (λ e. change-Keeps _ (λ s p. p)) (λ e. return-Keeps _)

  skip_identities-Keeps :
      (tool_name : String) (identities : List (String × IdentitySpec))
      → Keeps (CallsEnabled guard Q) (Expected guard) (skip_identities guard tool_name identities)
  unfolding skip_identities
  skip_identities-Keeps tool_name [] = return-Keeps _
  skip_identities-Keeps tool_name (entry ∷ rest) =
      bind-Keeps (add_finding-Keeps guard Q _) (λ _. skip_identities-Keeps tool_name rest)

  check_tool_access-Keeps :
      (tool_name : String) (tool : ToolContract)
      → Memᴰ (tool_name, tool) guard.contract.tools
      → Keeps (CallsEnabled guard Q) (Expected guard) (check_tool_access guard tool_name tool)
  unfolding check_tool_access
  check_tool_access-Keeps tool_name tool member =
      unless_skipped-Keeps tool (skip_identities-Keeps tool_name guard.contract.identities) (λ h.
        bind-Keeps
          (check_identities-Keeps tool_name tool
            (permitted_first tool.permitted_identities guard.contract.identities) false
            (mem-IsCallable guard Q tool_name tool member h))
          (λ positive. change-Keeps _ (λ s p. p)))

  pub check_access_matrix-Keeps :
      Keeps (CallsEnabled guard Q) (Expected guard) (check_access_matrix guard)
  unfolding check_access_matrix
  check_access_matrix-Keeps =
      each-Keeps guard.contract.tools (λ t m. check_tool_access-Keeps t.0 t.1 m)
