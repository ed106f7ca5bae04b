-- ===== src/Fixture/Final.antt =====
-- assurance/phase2/fixture/store.py: `snapshot`, `final_snapshot` and `finalize_attempt`.
use mcp_behaviour_guard.Prelude.{
  ℕ, String, Bool, true, false, Option, none, some, List, all, eqb, length,
}
use mcp_behaviour_guard.Fixture.Schema.{
  Attempt, AttemptState, fenced, finalized, Request, AuditEvent, Database, Result, ok, err,
  Platform, require, ◌>>=◌, ◌>>◌, Outcome, transaction, fixture_error, invalid_attempt_state,
  drain_incomplete,
}
use mcp_behaviour_guard.Fixture.Query.{
  is_terminal, find_attempt, update_attempt, requests_of, ordered_events_of, ordered_requests_of,
  require_active_state,
}
use mcp_behaviour_guard.Fixture.Ledger.{validate_ledger}
use mcp_behaviour_guard.Fixture.Observe.{render}
use mcp_behaviour_guard.Json.{Json}

pub record Snapshot : Type 0 where
  pub attempt : Attempt
  pub requests : List Request
  pub audit : List AuditEvent

snapshot_of : String → Option Attempt → Database → Result Snapshot
snapshot_of attempt_id none db = err fixture_error
snapshot_of attempt_id (some row) db = ok (record {
  attempt = row;
  requests = ordered_requests_of attempt_id db;
  audit = ordered_events_of attempt_id db;
})

unfoldable pub snapshot : String → Database → Result Snapshot
unfolding snapshot_of
snapshot attempt_id db = snapshot_of attempt_id (find_attempt attempt_id db) db

-- No request of the attempt is in a state outside _REQUEST_TERMINAL.
abbrev pub drained : String → Database → Bool
drained attempt_id db = all (λ row. is_terminal row.state) (requests_of attempt_id db)

-- What the transaction of `final_snapshot` has read.
pub record SnapshotRows : Type 0 where
  pub watermark : ℕ
  pub requests : List Request
  pub audit : List AuditEvent

-- The result. Its audit events are rendered, as those of `observer_events` are.
pub record FinalSnapshot : Type 0 where
  pub attempt_id : String
  pub state : AttemptState
  pub audit_complete : Bool
  pub final_watermark : ℕ
  pub requests : List Request
  pub audit : List Json

abbrev pub describe : String → SnapshotRows → List Json → FinalSnapshot
describe attempt_id rows events = record {
  attempt_id = attempt_id;
  state = fenced;
  audit_complete = true;
  final_watermark = rows.watermark;
  requests = rows.requests;
  audit = events;
}

-- The result is made after `commit`: where the rendering of a row raises, the rollback that follows
-- finds nothing to undo.
abbrev pub described : Platform → String → Outcome SnapshotRows → Outcome FinalSnapshot
described platform attempt_id outcome = (
  outcome.0 >>= λ rows.
      render platform rows.audit >>= λ events. ok (describe attempt_id rows events),
  outcome.1,
)

abbrev pub to_complete : ℕ → ℕ → Attempt → Attempt
to_complete watermark count row = record row {
  audit_complete = true;
  final_watermark = some watermark;
  final_request_count = some count;
}

unfoldable pub final_snapshot : Platform → String → Database → Outcome FinalSnapshot
final_snapshot platform attempt_id db = described platform attempt_id (
    transaction
      (λ db. do
        attempt ← require_active_state db attempt_id fenced
        require (drained attempt_id db) drain_incomplete
        let audit = ordered_events_of attempt_id db
        validate_ledger platform attempt audit
        let requests = ordered_requests_of attempt_id db
        let watermark = attempt.audit_watermark
        ok (
          record { watermark = watermark; requests = requests; audit = audit },
          update_attempt attempt_id (to_complete watermark (length requests)) db,
        ))
      db)

-- A column that is NULL fails the test.
abbrev pub is_count : Option ℕ → ℕ → Bool
is_count none n = false
is_count (some m) n = eqb m n

abbrev pub to_finalized : String → Attempt → Attempt
to_finalized now row = record row { state = finalized; finalized_at = some now }

unfoldable pub finalize_attempt : Platform → String → String → Database → Outcome Unit
finalize_attempt platform attempt_id now = transaction λ db. do
  attempt ← require_active_state db attempt_id fenced
  require attempt.audit_complete invalid_attempt_state
  let requests = requests_of attempt_id db
  require (drained attempt_id db) drain_incomplete
  require (is_count attempt.final_request_count (length requests)) invalid_attempt_state
  require (is_count attempt.final_watermark attempt.audit_watermark) invalid_attempt_state
  validate_ledger platform attempt (ordered_events_of attempt_id db)
  let closed = update_attempt attempt_id (to_finalized now) db
  ok (tt, record closed { active_attempt_id = none })
