-- ===== src/Fixture/System/Once.antt =====
-- A request identifier of `business_write` in assurance/phase2/fixture/store.py is written
-- with at most once in an attempt.
use mcp_behaviour_guard.Prelude.{◌≡◌, true, any, inl, inr}
use mcp_behaviour_guard.Fixture.Schema.{
  Attempt, Database, Platform, ok, err, Result-cases, request_conflict, FixtureError,
}
use mcp_behaviour_guard.Fixture.Query.{attempt_for_token}
use mcp_behaviour_guard.Fixture.Write.{
  WriteCall, business_write, is_request, request_of, write_body, after_barrier, wait,
  before_transaction, after_write_lock,
}
use mcp_behaviour_guard.Fixture.System.{Reach}
use mcp_behaviour_guard.Fixture.Invariant.{IsWellFormed}
use mcp_behaviour_guard.Fixture.System.Used.{Reach-IsUsed}

refused_body :
    (platform : Platform) (call : WriteCall) (db : Database) (row : Attempt)
    → attempt_for_token platform db call.token ≡ ok row
    → any (is_request row.attempt_id (request_of call)) db.requests ≡ true
    → (e : FixtureError) × (write_body platform call db ≡ err e)
unfolding write_body
refused_body platform call db row owner used =
    elim (Result-cases (wait call.barrier after_write_lock)) [
      | inl (u, w) ↦ (request_conflict, rw (w, owner, used))
      | inr (x, w) ↦ (x, rw w)
    ]

-- Once an attempt of a well-formed database has used a request identifier, no write of that attempt
-- with the same identifier ever returns a result or changes the database, whatever calls,
-- successful or not, and restarts come in between, and whatever else the two writes say.
pub business_write_once :
    {platform : Platform} {db later : Database} (call : WriteCall) (row : Attempt)
    → IsWellFormed platform db
    → any (is_request row.attempt_id (request_of call)) db.requests ≡ true
    → Reach platform db later
    → attempt_for_token platform later call.token ≡ ok row
    → (e : FixtureError) × (business_write platform call later ≡ (err e, later))
unfolding business_write
business_write_once {platform} {db} {later} call row wf used path owner =
    let (wf', used') = Reach-IsUsed row.attempt_id (request_of call) path wf used in
    let (e, refused) = refused_body platform call later row owner used' in
    elim (Result-cases (wait call.barrier before_transaction)) [
      | inl (u, w) ↦ (e, rw (w, after_barrier) (rw refused))
      | inr (x, w) ↦ (x, rw (w, after_barrier))
    ]
