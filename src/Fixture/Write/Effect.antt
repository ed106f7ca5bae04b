-- ===== src/Fixture/Write/Effect.antt =====
-- The whole effect of a committed `business_write` of assurance/phase2/fixture/store.py, as one
-- database beside the one before it.
use mcp_behaviour_guard.Prelude.{
  ℕ, ◌+◌, ◌-◌, ◌≡◌, true, false, none, some, List, [], ◌∷◌, ◌++◌, eq_refl, any, if◌then◌else◌,
  Bool-cases, inl, inr,
}
use mcp_behaviour_guard.Fixture.Schema.{
  Attempt, Database, Platform, Request, AuditEvent, Result, admitted, committed, err,
  injected_fixture_fault, integrity_error, ok,
}
use mcp_behaviour_guard.Fixture.Write.{
  WriteCall, new_request, commit_write, WriteResult, to_committed, request_of, same_fault,
  is_request, new_event, upsert_record, audit_failure, written_record, crash_before_commit,
}
use mcp_behaviour_guard.Prelude.Table.{update, update-append_row, update_none}
use mcp_behaviour_guard.Fixture.Ledger.{
  append_audit_event, build_event, append_to, previous_hash, event_conflicts,
}
use mcp_behaviour_guard.Fixture.Query.{has_id, find_attempt}

abbrev pub committed_request : WriteCall → Attempt → Request
committed_request call row =
    to_committed call.finish_time (new_request call row.attempt_id admitted none none)

abbrev pub committed_event : Platform → WriteCall → Attempt → Database → AuditEvent
committed_event platform call row db =
    build_event platform (new_event call row) (row.audit_watermark + 1)
      (previous_hash row.attempt_id (row.audit_watermark + 1 - 1) db)

abbrev pub set_watermark : ℕ → Attempt → Attempt
set_watermark seq row = record row { audit_watermark = seq }

abbrev pub committed_database : Platform → WriteCall → Attempt → Database → Database
committed_database platform call row db = record db {
  attempts = update (has_id row.attempt_id) (set_watermark (row.audit_watermark + 1)) db.attempts;
  requests = db.requests ++ committed_request call row ∷ [];
  records = upsert_record (written_record call row.attempt_id) db.records;
  audit_events = db.audit_events ++ committed_event platform call row db ∷ [];
}

abbrev pub committed_result : WriteCall → Attempt → WriteResult
committed_result call row = record {
  attempt_id = row.attempt_id;
  request_id = request_of call;
  state = committed;
  committed_write = true;
  audit_seq = some (row.audit_watermark + 1);
}

-- Every branch of the writing part of the transaction.
abbrev pub commit_outcome :
    Platform → WriteCall → Attempt → Database → Result (WriteResult × Database)
commit_outcome platform call row db =
    if same_fault call.fault audit_failure
    then err injected_fixture_fault
    else if event_conflicts (committed_event platform call row db) db.audit_events
    then err integrity_error
    else if same_fault call.fault crash_before_commit
    then err injected_fixture_fault
    else ok (committed_result call row, committed_database platform call row db)

requests_committed :
    (call : WriteCall) (row : Attempt) (rows : List Request)
    → any (is_request row.attempt_id (request_of call)) rows ≡ false
    → update
        (is_request row.attempt_id (request_of call))
        (to_committed call.finish_time)
        (rows ++ new_request call row.attempt_id admitted none none ∷ [])
      ≡ rows ++ committed_request call row ∷ []
unfolding new_request
requests_committed call row rows fresh =
    let test = is_request row.attempt_id (request_of call) in
    let change = to_committed call.finish_time in
    rw (
      update-append_row test change rows (new_request call row.attempt_id admitted none none),
      update_none test change rows fresh,
      eq_refl row.attempt_id,
      eq_refl (request_of call),
    )

-- The writing part of `business_write`, on the attempt's stored row and with a request identifier
-- that is new to it: one of three errors, or the result and a database that has one committed
-- request, the record, one audit event and the attempt's new watermark more, and is otherwise the
-- same.
pub commit_write_lem :
    (platform : Platform) (call : WriteCall) (row : Attempt) (db : Database)
    → find_attempt row.attempt_id db ≡ some row
    → any (is_request row.attempt_id (request_of call)) db.requests ≡ false
    → commit_write platform call row db ≡ commit_outcome platform call row db
unfolding commit_write append_audit_event
commit_write_lem platform call row db found fresh =
    rw (found, append_to)
      (elim (Bool-cases (same_fault call.fault audit_failure)) [
        | inl e ↦ rw e
        | inr e ↦
            rw e
              (elim (Bool-cases
                (event_conflicts (committed_event platform call row db) db.audit_events)) [
                  | inl c ↦ rw c
                  | inr c ↦ rw c (elim (Bool-cases (same_fault call.fault crash_before_commit)) [
                    | inl f ↦ rw f
                    | inr f ↦ rw f (rw (requests_committed call row db.requests fresh))
                  ])
                ])
      ])
