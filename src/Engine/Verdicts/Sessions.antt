-- ===== src/Engine/Verdicts/Sessions.antt =====
-- The finding of a session test of src/mcp_behaviour_guard/engine.py, said of its two calls.
use mcp_behaviour_guard.Prelude.{
  ◌&&◌, ◌≡◌, arith, Bool, ◌↔◌, not, String, true, ◌++◌, ◌∷◌, [], refl,
}
use mcp_behaviour_guard.SavedRun.Finding.{Observation, passed, failed}
use mcp_behaviour_guard.Engine.Invoke.{is_sufficient, ObservedCall}
use mcp_behaviour_guard.Engine.Sessions.{
  merge_observation_statuses, session_status, finish_session, is_evidence, is_attempted,
}
use mcp_behaviour_guard.Engine.State.{add_finding, change, GuardEngine, EngineState, done}
use mcp_behaviour_guard.Models.{SessionIsolationTest, Finding}
use mcp_behaviour_guard.Client.{occurs_in}
use mcp_behaviour_guard.Engine.Access.{is_true}

-- Of two observations, merged, both must suffice.
merge_lem :
    (a b : Observation)
    → is_sufficient (merge_observation_statuses a b) ≡ (is_sufficient a && is_sufficient b)
unfolding merge_observation_statuses
merge_lem a b = ground arith

session_status_lem :
    (leaked writes reads : Bool) (seen : ObservedCall)
    → let status = session_status leaked (writes && reads) seen in
      ((status ≡ passed) ↔ ((not leaked && (writes && (reads && is_evidence seen))) ≡ true))
      × ((status ≡ failed) ↔ (leaked ≡ true))
unfolding session_status
session_status_lem leaked writes reads seen = ground arith

-- The finding that ends a session test passes exactly when the marker of the writing call does not
-- occur in the text of the reading call's response, both calls were allowed, and the reading call was
-- made and sufficiently observed. It fails exactly when the marker occurs there. Its observation suffices exactly when those of both calls do. Nothing else is
-- recorded.
pub finish_session_lem :
    {World : Type 0} (guard : GuardEngine World) (test : SessionIsolationTest) (marker : String)
    (written seen : ObservedCall) (s : EngineState World)
    → let leaked = occurs_in marker (guard.library.json_text seen.invocation.response) in
      (finding : Finding) × ((finish_session guard test marker written seen).run s
        ≡ (done tt, record s { findings = s.findings ++ finding ∷ [] }))
      × (finding.test_id ≡ test.id)
      × ((finding.status ≡ passed) ↔ (
          (not leaked
            && (is_true written.invocation.allowed
                && (is_true seen.invocation.allowed
                    && (is_attempted seen.invocation.execution && is_sufficient seen.observation))))
          ≡ true))
      × ((finding.status ≡ failed) ↔ (leaked ≡ true))
      × (is_sufficient finding.observation
          ≡ (is_sufficient written.observation && is_sufficient seen.observation))
unfolding finish_session session_status add_finding change
finish_session_lem guard test marker written seen s =
    let leaked = occurs_in marker (guard.library.json_text seen.invocation.response) in
    let (passes, fails) =
      session_status_lem leaked (is_true written.invocation.allowed)
        (is_true seen.invocation.allowed) seen in
    (_, refl, refl, passes, fails, merge_lem written.observation seen.observation)
