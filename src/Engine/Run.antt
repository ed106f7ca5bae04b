-- ===== src/Engine/Run.antt =====
-- `_discover_tools` and `_run_with_ownership` of
-- src/mcp_behaviour_guard/engine.py: the checks of a run, in their order.
use mcp_behaviour_guard.Prelude.{String, true, false, none, some, List, [], ◌∷◌}
use mcp_behaviour_guard.Json.{Fields}
use mcp_behaviour_guard.Engine.State.{
  ◌>>=◌, GuardEngine, EngineState, Guard, ◌>>◌, return, change, outside_call, add_finding,
}
use mcp_behaviour_guard.Models.{Finding, IdentitySpec}
use mcp_behaviour_guard.SavedRun.Finding.{error, high, not_required}
use mcp_behaviour_guard.Engine.Access.{check_inventory, check_access_matrix}
use mcp_behaviour_guard.Engine.Drift.{check_temporal_integrity}
use mcp_behaviour_guard.Engine.Effects.{check_tool_side_effects}
use mcp_behaviour_guard.Engine.Tenant.{check_tenant_isolation}
use mcp_behaviour_guard.Engine.Policy.{check_policy_probes}
use mcp_behaviour_guard.Engine.Sessions.{check_session_isolation}
use mcp_behaviour_guard.Engine.Replay.{check_replay_protection}

abbrev pub discovery_finding : Finding
discovery_finding = record {
  test_id = "DISCOVERY-001";
  category = "discovery";
  status = error;
  severity = high;
  observation = not_required;
}

module _ {World : Type 0} (guard : GuardEngine World) where
  -- The loop over the identities: the first that can list the tools ends it.
  unfoldable pub discover_as : List (String × IdentitySpec) → Guard World (List Fields)
  discover_as [] = add_finding discovery_finding >> return []
  discover_as ((identity_name, identity) ∷ rest) = do
    tools ← outside_call (guard.outside.list_tools identity_name)
    elim tools [
      | none ↦ discover_as rest
      | some found ↦ change (λ s. record s { discovery_ok = true }) >> return found
    ]

  unfoldable pub discover_tools : Guard World (List Fields)
  unfolding discover_as
  discover_tools = discover_as guard.contract.identities

  unfoldable pub run_with_ownership : Guard World Unit
  unfolding discover_tools check_inventory check_temporal_integrity check_access_matrix
      check_tool_side_effects check_tenant_isolation check_policy_probes check_session_isolation
      check_replay_protection
  run_with_ownership = do
    discovered ← discover_tools
    check_inventory guard discovered
    check_temporal_integrity guard
    check_access_matrix guard
    check_tool_side_effects guard
    check_tenant_isolation guard
    check_policy_probes guard
    check_session_isolation guard
    check_replay_protection guard

-- The fields of a new engine.
unfoldable pub new_engine_state : {World : Type 0} → World → EngineState World
new_engine_state world = record {
  findings = [];
  invocations = [];
  positive_controls = [];
  identity_positive_controls = [];
  discovery_ok = false;
  world = world;
}
