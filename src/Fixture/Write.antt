-- ===== src/Fixture/Write.antt =====
-- assurance/phase2/fixture/store.py: `business_write`, with its barrier and its injected faults.
-- Request identifiers, event identifiers and times are arguments.
pub mod Effect
use mcp_behaviour_guard.Prelude.{
  ℕ, String, Bool, true, false, ◌&&◌, ◌||◌, not, Option, none, some, List, [], ◌∷◌, ◌++◌, ◌==◌, any,
  if◌then◌else◌,
}
use mcp_behaviour_guard.Prelude.Table.{update}
use mcp_behaviour_guard.Json.{Json, text, object, end, field, nullable}
use mcp_behaviour_guard.Fixture.Schema.{
  Attempt, AttemptState, prepared, opened, fenced, finalized, aborted, recovery_required, Request,
  RequestState, admitted, committed, rejected, StoredRecord, Database, Result, ok, err, Platform,
  require, ◌>>=◌, ◌>>◌, Outcome, transaction, request_conflict, injected_fixture_fault,
  simulated_response_loss, timeout_error,
}
use mcp_behaviour_guard.Fixture.Query.{is_state, requested_by, attempt_for_token}
use mcp_behaviour_guard.Fixture.Ledger.{NewEvent, append_audit_event}
use mcp_behaviour_guard.Fixture.Lifecycle.{given_or}

pub data Stage : Type 0 where
  before_transaction after_write_lock : Stage

pub data Fault : Type 0 where
  audit_failure crash_before_commit response_loss : Fault

-- A barrier, and whether it is released within its timeout.
pub record WriteBarrier : Type 0 where
  pub stage : Stage
  pub released : Bool

abbrev pub same_stage : Stage → Stage → Bool
same_stage before_transaction before_transaction = true
same_stage after_write_lock after_write_lock = true
same_stage _ _ = false

abbrev pub same_fault : Option Fault → Fault → Bool
same_fault (some audit_failure) audit_failure = true
same_fault (some crash_before_commit) crash_before_commit = true
same_fault (some response_loss) response_loss = true
same_fault _ _ = false

-- WriteBarrier.wait, where there is a barrier.
unfoldable pub wait : Option WriteBarrier → Stage → Result (Unit {0})
wait none stage = ok tt
wait (some barrier) stage =
    require (not (same_stage barrier.stage stage) || barrier.released) timeout_error

-- A row of the result's state: COMMITTED with its audit number, or REJECTED with none.
pub record WriteResult : Type 0 where
  pub attempt_id : String
  pub request_id : String
  pub state : RequestState
  pub committed_write : Bool
  pub audit_seq : Option ℕ

-- The arguments of a call, with the values that it draws from `uuid4` and the clock.
pub record WriteCall : Type 0 where
  pub token : String
  pub record_id : String
  pub value : String
  pub request_id : Option String
  pub fresh_request_id : String
  pub asserted_attempt_id : Option String
  pub asserted_principal : Option String
  pub barrier : Option WriteBarrier
  pub fault : Option Fault
  pub now : String
  pub event_id : String
  pub event_time : String
  pub finish_time : String

abbrev pub request_of : WriteCall → String
request_of call = given_or call.request_id call.fresh_request_id

-- attempt_id = ? AND request_id = ?
abbrev pub is_request : String → String → Request → Bool
is_request attempt_id request row = requested_by attempt_id row && row.request_id == request

abbrev pub state_name : AttemptState → String
state_name prepared = "attempt_state=PREPARED"
state_name opened = "attempt_state=OPEN"
state_name fenced = "attempt_state=FENCED"
state_name finalized = "attempt_state=FINALIZED"
state_name aborted = "attempt_state=ABORTED"
state_name recovery_required = "attempt_state=RECOVERY_REQUIRED"

unfoldable pub new_request :
    WriteCall → String → RequestState → Option String → Option String → Request
new_request call attempt_id state finished_at rejection_reason = record {
  attempt_id = attempt_id;
  request_id = request_of call;
  operation = "record_write";
  state = state;
  asserted_attempt_id = call.asserted_attempt_id;
  asserted_principal = call.asserted_principal;
  created_at = call.now;
  finished_at = finished_at;
  rejection_reason = rejection_reason;
}

-- INSERT INTO records … ON CONFLICT(record_id) DO UPDATE
unfoldable pub upsert_record : StoredRecord → List StoredRecord → List StoredRecord
upsert_record new [] = new ∷ []
upsert_record new (row ∷ rows) =
    if row.record_id == new.record_id then new ∷ rows else row ∷ upsert_record new rows

unfoldable pub written_record : WriteCall → String → StoredRecord
written_record call attempt_id = record {
  record_id = call.record_id;
  value = call.value;
  updated_by_attempt = attempt_id;
  updated_by_request = request_of call;
  updated_at = call.now;
}

unfoldable pub write_details : WriteCall → Json
write_details call = object (
    field "record_id" (text call.record_id) (
      field "asserted_attempt_id" (nullable call.asserted_attempt_id)
        (field "asserted_principal" (nullable call.asserted_principal) end)))

unfoldable pub new_event : WriteCall → Attempt → NewEvent
new_event call attempt = record {
  attempt_id = attempt.attempt_id;
  request_id = request_of call;
  operation = "record_write";
  principal = attempt.principal;
  details = write_details call;
  event_id = call.event_id;
  created_at = call.event_time;
}

abbrev pub to_committed : String → Request → Request
to_committed time row = record row { state = committed; finished_at = some time }

-- The attempt is not OPEN: the rejection is stored, and is the result.
unfoldable pub reject : WriteCall → Attempt → Database → WriteResult × Database
unfolding new_request
reject call attempt db = (
  record {
    attempt_id = attempt.attempt_id;
    request_id = request_of call;
    state = rejected;
    committed_write = false;
    audit_seq = none;
  },
  record db {
    requests =
        db.requests
        ++ new_request call attempt.attempt_id rejected (some call.now)
            (some (state_name attempt.state))
          ∷ [];
  },
)

-- The request's and the record's rows.
unfoldable pub stage_write : WriteCall → Attempt → Database → Database
unfolding new_request written_record upsert_record
stage_write call attempt db = record db {
  requests = db.requests ++ new_request call attempt.attempt_id admitted none none ∷ [];
  records = upsert_record (written_record call attempt.attempt_id) db.records;
}

unfoldable pub commit_write :
    Platform → WriteCall → Attempt → Database → Result (WriteResult × Database)
unfolding stage_write new_event write_details
commit_write platform call attempt db = do
  let staged = stage_write call attempt db
  require (not (same_fault call.fault audit_failure)) injected_fixture_fault
  (seq, db') ← append_audit_event platform (new_event call attempt) staged
  require (not (same_fault call.fault crash_before_commit)) injected_fixture_fault
  ok (
    record {
      attempt_id = attempt.attempt_id;
      request_id = request_of call;
      state = committed;
      committed_write = true;
      audit_seq = some seq;
    },
    record db' {
      requests =
          update (is_request attempt.attempt_id (request_of call)) (to_committed call.finish_time)
            db'.requests;
    },
  )

unfoldable pub write_body : Platform → WriteCall → Database → Result (WriteResult × Database)
unfolding wait reject commit_write
write_body platform call db = do
  wait call.barrier after_write_lock
  attempt ← attempt_for_token platform db call.token
  require (not (any (is_request attempt.attempt_id (request_of call)) db.requests)) request_conflict
  if is_state attempt.state opened
      then commit_write platform call attempt db
      else ok (reject call attempt db)

-- The response to a committed write may be lost; a rejection has returned before that test.
unfoldable pub respond : WriteCall → WriteResult → Result WriteResult
respond call result =
    if result.committed_write && same_fault call.fault response_loss
    then err simulated_response_loss
    else ok result

unfoldable pub answer : WriteCall → Outcome WriteResult → Outcome WriteResult
answer call (result, db) = (result >>= respond call, db)

unfoldable pub after_barrier :
    Platform → WriteCall → Database → Result (Unit {0}) → Outcome WriteResult
unfolding answer respond write_body
after_barrier platform call db (err e) = (err e, db)
after_barrier platform call db (ok _) = answer call (transaction (write_body platform call) db)

unfoldable pub business_write : Platform → WriteCall → Database → Outcome WriteResult
unfolding after_barrier wait
business_write platform call db =
    after_barrier platform call db (wait call.barrier before_transaction)
