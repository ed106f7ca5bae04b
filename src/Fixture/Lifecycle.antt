-- ===== src/Fixture/Lifecycle.antt =====
-- assurance/phase2/fixture/store.py: the methods that move an attempt through its states,
-- `bootstrap`, `create_attempt`, `open_attempt`, `close_attempt` and `abort_recovery`. Times and
-- tokens are arguments.
use mcp_behaviour_guard.Prelude.{
  String, Bool, ◌||◌, ◌&&◌, not, Option, none, some, List, [], ◌∷◌, ◌++◌, ◌==◌, any, if◌then◌else◌,
  false,
}
use mcp_behaviour_guard.Prelude.Table.{update}
use mcp_behaviour_guard.Fixture.Schema.{
  Attempt, prepared, opened, fenced, finalized, aborted, recovery_required, Request, failed,
  ObserverCursor, Database, Result, ok, err, Platform, require, ◌>>◌, Outcome, transaction,
  fixture_error, active_attempt_exists, integrity_error,
}
use mcp_behaviour_guard.Fixture.Query.{
  is_terminal, requested_by, find_attempt, update_attempt, require_active_state,
}

-- audit_complete = 0, final_watermark = NULL, final_request_count = NULL
abbrev pub without_final : Attempt → Attempt
without_final row = record row {
  audit_complete = false;
  final_watermark = none;
  final_request_count = none;
}

abbrev pub to_recovery : Attempt → Attempt
to_recovery row = record (without_final row) { state = recovery_required }

-- The row of the attempt that was active when the process stopped. The CHECK clause leaves no
-- state for the last `elif` of the source.
unfoldable pub recover_row : String → Option Attempt → Database → Result (Unit {0} × Database)
recover_row active none db = err fixture_error
recover_row active (some row) db = elim row.state [
  | prepared ↦ ok (tt, update_attempt active to_recovery db)
  | opened ↦ ok (tt, update_attempt active to_recovery db)
  | fenced ↦ ok (tt, update_attempt active to_recovery db)
  | finalized ↦ ok (tt, record db { active_attempt_id = none })
  | aborted ↦ ok (tt, record db { active_attempt_id = none })
  | recovery_required ↦ ok (tt, db)
]

unfoldable pub recover : Option String → Database → Result (Unit {0} × Database)
unfolding recover_row
recover none db = ok (tt, db)
recover (some active) db = recover_row active (find_attempt active db) db

-- The tables are there already: on a new file they are `new_database`.
unfoldable pub bootstrap : Database → Outcome Unit
unfolding recover
bootstrap = transaction λ db. recover db.active_attempt_id db

pub record AttemptCredential : Type 0 where
  pub attempt_id : String
  pub token : String

-- attempt_id or uuid.uuid4().hex
abbrev pub given_or : Option String → String → String
given_or none fresh = fresh
given_or (some given) fresh = if given == "" then fresh else given

unfoldable pub new_attempt : Platform → String → String → String → Attempt
new_attempt platform attempt token now = record {
  attempt_id = attempt;
  credential_sha256 = platform.sha256 token;
  principal = "candidate_app";
  state = prepared;
  created_at = now;
  opened_at = none;
  fenced_at = none;
  finalized_at = none;
  audit_watermark = 0;
  final_watermark = none;
  final_request_count = none;
  audit_complete = false;
}

-- PRIMARY KEY and credential_sha256 UNIQUE.
abbrev pub attempt_conflicts : Attempt → List Attempt → Bool
attempt_conflicts new =
    any λ row. row.attempt_id == new.attempt_id || row.credential_sha256 == new.credential_sha256

abbrev pub cursor_conflicts : String → List ObserverCursor → Bool
cursor_conflicts attempt = any λ row. row.attempt_id == attempt

unfoldable pub is_none : Option String → Bool
is_none none = Bool.true
is_none (some _) = false

unfoldable pub create_body :
    Platform → String → String → String → Database → Result (AttemptCredential × Database)
unfolding new_attempt is_none
create_body platform attempt token now db = do
  require (is_none db.active_attempt_id) active_attempt_exists
  let row = new_attempt platform attempt token now
  require (not (attempt_conflicts row db.attempts)) integrity_error
  require (not (cursor_conflicts attempt db.observer_cursors)) integrity_error
  ok (
    record { attempt_id = attempt; token = token },
    record db {
      attempts = db.attempts ++ row ∷ [];
      observer_cursors =
          db.observer_cursors ++ record { attempt_id = attempt; cursor_seq = 0 } ∷ [];
      active_attempt_id = some attempt;
    },
  )

-- `fresh` is the identifier that `uuid4` would give, `token` the one that `secrets` gives.
unfoldable pub create_attempt :
    Platform → Option String → String → String → String → Database → Outcome AttemptCredential
unfolding create_body
create_attempt platform attempt_id fresh token now =
    transaction (create_body platform (given_or attempt_id fresh) token now)

abbrev pub to_opened : String → Attempt → Attempt
to_opened now row = record row { state = opened; opened_at = some now }

unfoldable pub open_attempt : String → String → Database → Outcome Unit
open_attempt attempt_id now = transaction λ db. do
  require_active_state db attempt_id prepared
  ok (tt, update_attempt attempt_id (to_opened now) db)

abbrev pub to_fenced : String → Attempt → Attempt
to_fenced now row = record row { state = fenced; fenced_at = some now }

unfoldable pub close_attempt : String → String → Database → Outcome Unit
close_attempt attempt_id now = transaction λ db. do
  require_active_state db attempt_id opened
  ok (tt, update_attempt attempt_id (to_fenced now) db)

-- COALESCE(column, value)
abbrev pub coalesce : Option String → String → Option String
coalesce none value = some value
coalesce (some old) value = some old

abbrev pub to_failed : String → Request → Request
to_failed now row = record row {
  state = failed;
  finished_at = coalesce row.finished_at now;
  rejection_reason = coalesce row.rejection_reason "recovery_abort";
}

-- attempt_id = ? AND state = 'ADMITTED'
abbrev pub pending_for : String → Request → Bool
pending_for attempt_id row = requested_by attempt_id row && not (is_terminal row.state)

abbrev pub to_aborted : Attempt → Attempt
to_aborted row = record (without_final row) { state = aborted }

unfoldable pub abort_recovery : String → String → Database → Outcome Unit
abort_recovery attempt_id now = transaction λ db. do
  require_active_state db attempt_id recovery_required
  let failed_requests = update (pending_for attempt_id) (to_failed now) db.requests
  let closed = update_attempt attempt_id to_aborted (record db { requests = failed_requests })
  ok (tt, record closed { active_attempt_id = none })
