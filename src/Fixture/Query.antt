-- ===== src/Fixture/Query.antt =====
-- assurance/phase2/fixture/store.py: the row queries that the methods share, and their guards
-- `_require_active_state` and `_attempt_for_token`.
pub mod Rows
use mcp_behaviour_guard.Prelude.{
  String, Bool, true, false, Option, none, some, List, ◌==◌, ◌≡◌, arith, if◌then◌else◌, leb,
  text_leb,
}
use mcp_behaviour_guard.Prelude.Table.{fetch_one, fetch_all, update, order_by}
use mcp_behaviour_guard.Fixture.Schema.{
  Attempt, AttemptState, prepared, opened, fenced, finalized, aborted, recovery_required, Request,
  RequestState, admitted, AuditEvent, Database, Result, ok, err, Platform, require, ◌>>◌,
  invalid_attempt_state, invalid_credential, stale_credential,
}

-- row["state"] == expected
abbrev pub is_state : AttemptState → AttemptState → Bool
is_state prepared prepared = true
is_state opened opened = true
is_state fenced fenced = true
is_state finalized finalized = true
is_state aborted aborted = true
is_state recovery_required recovery_required = true
is_state _ _ = false

-- _REQUEST_TERMINAL
abbrev pub is_terminal : RequestState → Bool
is_terminal admitted = false
is_terminal _ = true

-- active != attempt_id, where `active` may be `None`.
abbrev pub is_active : Option String → String → Bool
is_active none attempt_id = false
is_active (some active) attempt_id = active == attempt_id

abbrev pub has_id : String → Attempt → Bool
has_id attempt_id row = row.attempt_id == attempt_id

abbrev pub requested_by : String → Request → Bool
requested_by attempt_id row = row.attempt_id == attempt_id

abbrev pub audited_for : String → AuditEvent → Bool
audited_for attempt_id row = row.attempt_id == attempt_id

-- SELECT * FROM attempts WHERE attempt_id = ?
abbrev pub find_attempt : String → Database → Option Attempt
find_attempt attempt_id db = fetch_one (has_id attempt_id) db.attempts

-- UPDATE attempts SET … WHERE attempt_id = ?
abbrev pub update_attempt : String → (Attempt → Attempt) → Database → Database
update_attempt attempt_id change db = record db {
  attempts = update (has_id attempt_id) change db.attempts;
}

-- SELECT * FROM requests WHERE attempt_id = ?, in the order of the table.
abbrev pub requests_of : String → Database → List Request
requests_of attempt_id db = fetch_all (requested_by attempt_id) db.requests

abbrev pub events_of : String → Database → List AuditEvent
events_of attempt_id db = fetch_all (audited_for attempt_id) db.audit_events

-- ORDER BY seq
abbrev pub seq_before : AuditEvent → AuditEvent → Bool
seq_before a b = leb a.seq b.seq

-- ORDER BY created_at, request_id
abbrev pub request_before : Request → Request → Bool
request_before a b =
    if a.created_at == b.created_at
    then text_leb a.request_id b.request_id
    else text_leb a.created_at b.created_at

abbrev pub ordered_events_of : String → Database → List AuditEvent
ordered_events_of attempt_id db = order_by seq_before (events_of attempt_id db)

abbrev pub ordered_requests_of : String → Database → List Request
ordered_requests_of attempt_id db = order_by request_before (requests_of attempt_id db)

-- `row is None or row["state"] != expected`
unfoldable pub require_state : Option Attempt → AttemptState → Result Attempt
require_state none expected = err invalid_attempt_state
require_state (some row) expected =
    if is_state row.state expected then ok row else err invalid_attempt_state

unfoldable pub require_active_state : Database → String → AttemptState → Result Attempt
unfolding require_state
require_active_state db attempt_id expected = do
  require (is_active db.active_attempt_id attempt_id) invalid_attempt_state
  require_state (find_attempt attempt_id db) expected

-- The row must be the active attempt's.
unfoldable pub check_token_row : Database → Option Attempt → Result Attempt
check_token_row db none = err invalid_credential
check_token_row db (some row) =
    if is_active db.active_attempt_id row.attempt_id then ok row else err stale_credential

abbrev pub has_credential : String → Attempt → Bool
has_credential credential row = row.credential_sha256 == credential

unfoldable pub attempt_for_token : Platform → Database → String → Result Attempt
unfolding check_token_row
attempt_for_token platform db token =
    check_token_row db (fetch_one (has_credential (platform.sha256 token)) db.attempts)

pub is_state→eq : (s expected : AttemptState) → is_state s expected ≡ true → s ≡ expected
is_state→eq s expected h = ground arith

-- What the guard has established when it lets a method go on.
pub require_active_state-ok :
    (db : Database) (attempt_id : String) (expected : AttemptState) {row : Attempt}
    → require_active_state db attempt_id expected ≡ ok row
    → (is_active db.active_attempt_id attempt_id ≡ true)
      × (find_attempt attempt_id db ≡ some row)
      × (row.state ≡ expected)
unfolding require_active_state
require_active_state-ok db attempt_id expected {row} h =
    ground (arith, is_state→eq row.state expected)

pub attempt_for_token-ok :
    (platform : Platform) (db : Database) (token : String) {row : Attempt}
    → attempt_for_token platform db token ≡ ok row
    → (fetch_one (has_credential (platform.sha256 token)) db.attempts ≡ some row)
      × (is_active db.active_attempt_id row.attempt_id ≡ true)
unfolding attempt_for_token
attempt_for_token-ok platform db token {row} h = ground arith
