-- ===== src/Engine/Verdicts.antt =====
-- When the checks of src/mcp_behaviour_guard/engine.py pass and when they fail, said of what was
-- seen.
pub mod Policies
pub mod Sessions
use mcp_behaviour_guard.Prelude.{◌&&◌, ◌||◌, ℕ, String, Bool, true, not, ◌≡◌, ◌↔◌, ◌≤◌, ◌<◌, arith}
use mcp_behaviour_guard.SavedRun.Finding.{passed, failed, Observation}
use mcp_behaviour_guard.Models.{ReplayProbe}
use mcp_behaviour_guard.Engine.Invoke.{ObservedCall, is_sufficient, is_complete}
use mcp_behaviour_guard.Engine.Access.{access_finding, is_allow}
use mcp_behaviour_guard.Engine.Policy.{is_deny}
use mcp_behaviour_guard.Engine.Replay.{replay_status}

-- A finding on the access of an identity to a tool passes exactly when the observation may carry a
-- verdict, and the call was allowed, for a permitted identity, or was denied and a permitted
-- identity had been allowed, for another. It fails exactly when a permitted identity was denied or
-- another one was allowed, whatever the observation.
pub access_finding_lem :
    (test_id : String) (expected_allowed positive : Bool) (seen : ObservedCall)
    → let status = (access_finding test_id expected_allowed positive seen).status in
      let authorization = seen.invocation.authorization in
      ((status ≡ passed) ↔ (
        (is_sufficient seen.observation
          && (expected_allowed && is_allow authorization
              || not expected_allowed && (is_deny authorization && positive)))
        ≡ true))
      × ((status ≡ failed) ↔ (
          (expected_allowed && is_deny authorization
            || not expected_allowed && is_allow authorization)
          ≡ true))
unfolding access_finding
access_finding_lem test_id expected_allowed positive seen = ground arith

-- A replay probe passes exactly when the matching effects are no fewer than its minimum and no more
-- than its maximum, a call succeeded, and the observation is complete. It fails exactly when they are
-- more than its maximum.
pub replay_status_lem :
    (probe : ReplayProbe) (matching successful : ℕ) (observation : Observation)
    → let status = replay_status probe matching successful observation in
      ((status ≡ passed) ↔ (
        (probe.minimum_events ≤ matching)
        × (matching ≤ probe.maximum_events)
        × (0 < successful)
        × (is_complete observation ≡ true)))
      × ((status ≡ failed) ↔ (probe.maximum_events < matching))
unfolding replay_status
replay_status_lem probe matching successful observation = ground arith
