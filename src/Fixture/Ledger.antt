-- ===== src/Fixture/Ledger.antt =====
-- assurance/phase2/fixture/store.py: the hash-chained audit ledger, `_audit_event_payload`,
-- `_append_audit_event` and `_validate_ledger`.
pub mod Chain
use mcp_behaviour_guard.Prelude.{
  ℕ, ◌+◌, ◌-◌, String, Bool, ◌&&◌, ◌||◌, Option, none, some, List, [], ◌∷◌, ◌++◌, ◌==◌, eqb, any,
  length, if◌then◌else◌,
}
use mcp_behaviour_guard.Prelude.Int.{pos}
use mcp_behaviour_guard.Prelude.Table.{fetch_one}
use mcp_behaviour_guard.Json.{Json, integer, text, object, end, field}
use mcp_behaviour_guard.Fixture.Schema.{
  Attempt, AuditEvent, Database, Result, ok, err, Platform, require, ◌>>◌, fixture_error,
  integrity_error, ledger_integrity_error,
}
use mcp_behaviour_guard.Fixture.Query.{find_attempt, update_attempt, audited_for}

-- "0" * 64
abbrev pub zero_hash : String
zero_hash = "0000000000000000000000000000000000000000000000000000000000000000"

-- The ten fields of a row that its hash covers.
unfoldable pub audit_event_payload : AuditEvent → Json
audit_event_payload row = object (
    field "attempt_id" (text row.attempt_id) (
      field "seq" (integer (pos row.seq)) (
        field "event_id" (text row.event_id) (
          field "kind" (text row.kind) (
            field "request_id" (text row.request_id) (
              field "operation" (text row.operation) (
                field "principal" (text row.principal) (
                  field "details_json" (text row.details_json) (
                    field "created_at" (text row.created_at)
                      (field "prev_hash" (text row.prev_hash) end))))))))))

-- _sha256_text(_canonical_json(payload))
abbrev pub calculated_hash : Platform → AuditEvent → String
calculated_hash platform row = platform.sha256 (platform.dumps (audit_event_payload row))

-- What `business_write` hands over, with the values drawn from `uuid4` and the clock.
pub record NewEvent : Type 0 where
  pub attempt_id : String
  pub request_id : String
  pub operation : String
  pub principal : String
  pub details : Json
  pub event_id : String
  pub created_at : String

-- The previous row's hash, or zeros where there is none.
abbrev pub hash_or_zero : Option AuditEvent → String
hash_or_zero none = zero_hash
hash_or_zero (some previous) = previous.event_hash

abbrev pub at_seq : String → ℕ → AuditEvent → Bool
at_seq attempt_id seq row = audited_for attempt_id row && eqb row.seq seq

abbrev pub previous_hash : String → ℕ → Database → String
previous_hash attempt_id seq db = hash_or_zero (fetch_one (at_seq attempt_id seq) db.audit_events)

-- The row before its hash is put in.
abbrev pub unhashed_event : Platform → NewEvent → ℕ → String → AuditEvent
unhashed_event platform new seq prev_hash = record {
  attempt_id = new.attempt_id;
  seq = seq;
  event_id = new.event_id;
  kind = "database_write";
  request_id = new.request_id;
  operation = new.operation;
  principal = new.principal;
  details_json = platform.dumps new.details;
  created_at = new.created_at;
  prev_hash = prev_hash;
  event_hash = "";
}

unfoldable pub build_event : Platform → NewEvent → ℕ → String → AuditEvent
build_event platform new seq prev_hash =
    let row = unhashed_event platform new seq prev_hash in
    record row { event_hash = calculated_hash platform row }

-- PRIMARY KEY (attempt_id, seq) and event_id UNIQUE.
abbrev pub event_conflicts : AuditEvent → List AuditEvent → Bool
event_conflicts new = any λ row. at_seq new.attempt_id new.seq row || row.event_id == new.event_id

-- The inserted row's number, and the database with it. The first argument is the attempt's row.
unfoldable pub append_to : Platform → NewEvent → Option Attempt → Database → Result (ℕ × Database)
append_to platform new none db = err fixture_error
append_to platform new (some attempt) db =
    let seq = attempt.audit_watermark + 1 in
    let row = build_event platform new seq (previous_hash new.attempt_id (seq - 1) db) in
    if event_conflicts row db.audit_events
    then err integrity_error
    else ok (
      seq,
      update_attempt new.attempt_id (λ a. record a { audit_watermark = seq })
          (record db { audit_events = db.audit_events ++ row ∷ [] }),
    )

unfoldable pub append_audit_event : Platform → NewEvent → Database → Result (ℕ × Database)
unfolding append_to
append_audit_event platform new db = append_to platform new (find_attempt new.attempt_id db) db

-- The loop: the rows are numbered from `expected_seq` on, each names the hash before it, and each
-- hash is that of its row.
unfoldable pub check_rows : Platform → ℕ → String → List AuditEvent → Result (Unit {0})
check_rows platform expected_seq previous [] = ok tt
check_rows platform expected_seq previous (row ∷ rows) =
    let rest = check_rows platform (expected_seq + 1) row.event_hash rows in
    if eqb row.seq expected_seq
      && (row.prev_hash == previous && calculated_hash platform row == row.event_hash)
    then rest
    else err ledger_integrity_error

unfoldable pub validate_ledger : Platform → Attempt → List AuditEvent → Result (Unit {0})
unfolding check_rows
validate_ledger platform attempt rows = do
  require (eqb (length rows) attempt.audit_watermark) ledger_integrity_error
  check_rows platform 1 zero_hash rows
