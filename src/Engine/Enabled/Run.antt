-- ===== src/Engine/Enabled/Run.antt =====
-- What a whole run of src/mcp_behaviour_guard/engine.py calls.
use mcp_behaviour_guard.Prelude.{
  String, true, ◌≡◌, refl, List, [], ◌∷◌, Option, none, some, all, ◌≢◌,
}
use mcp_behaviour_guard.Json.{Fields}
use mcp_behaviour_guard.Models.{IdentitySpec}
use mcp_behaviour_guard.Engine.State.{GuardEngine, Guard, change, ◌>>◌, return, raise, key_error}
use mcp_behaviour_guard.Engine.Keeps.{Keeps, bind-Keeps, return-Keeps, read-Keeps, change-Keeps}
use mcp_behaviour_guard.Engine.Enabled.{
  is_callable, Respects, CallsEnabled, Expected, outside_call-Keeps, add_finding-Keeps,
}
use mcp_behaviour_guard.Engine.Access.{check_inventory}
use mcp_behaviour_guard.Engine.Run.{
  discover_as, discover_tools, run_with_ownership, new_engine_state,
}
use mcp_behaviour_guard.Engine.Enabled.Checks.{check_access_matrix-Keeps}
use mcp_behaviour_guard.Engine.Enabled.Probes.{
  check_tool_side_effects-Keeps, check_tenant_isolation-Keeps, check_policy_probes-Keeps,
}
use mcp_behaviour_guard.Engine.Enabled.Windows.{
  check_session_isolation-Keeps, check_replay_protection-Keeps,
}
use mcp_behaviour_guard.Engine.Enabled.Drift.{check_temporal_integrity-Keeps}
use mcp_behaviour_guard.Models.References.{references_exist}

module _ {World : Type 0} (guard : GuardEngine World) (Q : World → Type 0)
    (respects : Respects guard Q) where
  found-Keeps :
      {others : Guard World (List Fields)} (tools : Option (List Fields))
      → Keeps (CallsEnabled guard Q) (Expected guard) others
      → Keeps (CallsEnabled guard Q) (Expected guard) (elim tools [
        | none ↦ others
        | some found ↦ change (λ s. record s { discovery_ok = true }) >> return found
      ])
  found-Keeps none h = h
  found-Keeps (some tools) h = bind-Keeps (change-Keeps _ (λ s p. p)) (λ _. return-Keeps _)

  discover_as-Keeps :
      (identities : List (String × IdentitySpec))
      → Keeps (CallsEnabled guard Q) (Expected guard) (discover_as guard identities)
  unfolding discover_as
  discover_as-Keeps [] = bind-Keeps (add_finding-Keeps guard Q _) (λ _. return-Keeps _)
  discover_as-Keeps ((identity_name, identity) ∷ rest) =
      bind-Keeps
        (outside_call-Keeps guard Q (guard.outside.list_tools identity_name)
          (respects.list_tools identity_name))
        (λ tools. found-Keeps tools (discover_as-Keeps rest))

  check_inventory-Keeps :
      (discovered : List Fields)
      → Keeps (CallsEnabled guard Q) (Expected guard) (check_inventory guard discovered)
  unfolding check_inventory
  check_inventory-Keeps discovered =
      bind-Keeps (read-Keeps _) (λ discovery_ok. add_finding-Keeps guard Q _)

  run_with_ownership-Keeps :
      Keeps (CallsEnabled guard Q) (Expected guard) (run_with_ownership guard)
  unfolding run_with_ownership discover_tools
  run_with_ownership-Keeps = bind-Keeps (discover_as-Keeps guard.contract.identities) (λ discovered.
      bind-Keeps (check_inventory-Keeps discovered) (λ _.
        bind-Keeps (check_temporal_integrity-Keeps guard Q respects) (λ _.
          bind-Keeps (check_access_matrix-Keeps guard Q respects) (λ _.
            bind-Keeps (check_tool_side_effects-Keeps guard Q respects) (λ _.
              bind-Keeps (check_tenant_isolation-Keeps guard Q respects) (λ _.
                bind-Keeps (check_policy_probes-Keeps guard Q respects) (λ _.
                  bind-Keeps (check_session_isolation-Keeps guard Q respects)
                    (λ _. check_replay_protection-Keeps guard Q respects))))))))

-- A run of a new engine, whatever the target, the observers and the identities do, calls and records
-- no tool but those of the contract that may be invoked: a tool that is not read-only only where the
-- contract sets destructive_tests, and lab mode is on or not required. Said of the calls: whatever
-- the world keeps under every other step and under the calls of such tools (the hypothesis) holds
-- after the run where it held before, whether the run ends with a result or with an exception.
pub run_with_ownership-CallsEnabled :
    {World : Type 0} (guard : GuardEngine World) (Q : World → Type 0)
    → Respects guard Q
    → (world : World) → Q world
    → let after = ((run_with_ownership guard).run (new_engine_state world)).1 in
      Q after.world × (all (λ i. is_callable guard i.tool) after.invocations ≡ true)
unfolding new_engine_state
run_with_ownership-CallsEnabled guard Q respects world q =
    ((run_with_ownership-Keeps guard Q respects).holds (new_engine_state world) (q, refl)).1

-- A run of a new engine on a contract that `references_exist` accepts raises no KeyError, whatever
-- the target, the observers and the identities do: every tool and every identity that a check looks
-- up is declared. What is left to raise is the IndexError of `get_path`, on a response whose list is
-- shorter than a path of the contract says, and the error of a root of a path check that cannot be
-- resolved.
pub run_with_ownership-raises :
    {World : Type 0} (guard : GuardEngine World) (world : World)
    → references_exist guard.contract ≡ none
    → ((run_with_ownership guard).run (new_engine_state world)).0 ≢ raise key_error
unfolding new_engine_state
run_with_ownership-raises guard world accepted raised =
    let (expected, kept) =
      (run_with_ownership-Keeps guard (λ w. Unit) any_respected).holds (new_engine_state world)
        (tt, refl) in
    cc ((rw raised at expected) accepted)
  where
    any_respected : Respects guard (λ w. Unit)
    any_respected = record {
      exchange = λ call h w q. tt;
      call_on_session = λ call h w q. tt;
      begin = λ handle w q. tt;
      collect = λ handle w q. tt;
      fresh_id = λ w q. tt;
      list_tools = λ name w q. tt;
      open_session = λ name w q. tt;
      snapshot = λ w q. tt;
      close_session = λ w q. tt;
    }
