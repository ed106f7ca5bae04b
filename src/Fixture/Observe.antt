-- ===== src/Fixture/Observe.antt =====
-- assurance/phase2/fixture/store.py: `read_record`, `reset_observer_cursor` and `observer_events`.
use mcp_behaviour_guard.Prelude.{
  ℕ, String, Bool, ◌==◌, Option, none, some, List, [], ◌∷◌, if◌then◌else◌, ltb,
}
use mcp_behaviour_guard.Prelude.Int.{pos}
use mcp_behaviour_guard.Prelude.Table.{fetch_one, fetch_all, update}
use mcp_behaviour_guard.Json.{Json, integer, text, object, Fields, end, field}
use mcp_behaviour_guard.Fixture.Schema.{
  Attempt, opened, AuditEvent, StoredRecord, ObserverCursor, Database, Result, ok, err, Platform,
  require, ◌>>=◌, ◌>>◌, Outcome, transaction, fixture_error, invalid_attempt_state, decode_error,
}
use mcp_behaviour_guard.Fixture.Query.{is_state, find_attempt, ordered_events_of, attempt_for_token}

unfoldable pub read_record : Platform → String → String → Database → Result (Option StoredRecord)
read_record platform token record_id db = do
  attempt ← attempt_for_token platform db token
  require (is_state attempt.state opened) invalid_attempt_state
  ok (fetch_one (λ row. row.record_id == record_id) db.records)

abbrev pub cursor_of : String → ObserverCursor → Bool
cursor_of attempt_id row = row.attempt_id == attempt_id

unfoldable pub reset_row : String → Option Attempt → Database → Result (ℕ × Database)
reset_row attempt_id none db = err fixture_error
reset_row attempt_id (some row) db = ok (
  row.audit_watermark,
  record db {
    observer_cursors =
        update (cursor_of attempt_id) (λ c. record c { cursor_seq = row.audit_watermark })
          db.observer_cursors;
  },
)

unfoldable pub reset_body : Option String → Database → Result (ℕ × Database)
unfolding reset_row
reset_body none db = err invalid_attempt_state
reset_body (some attempt_id) db = reset_row attempt_id (find_attempt attempt_id db) db

unfoldable pub reset_observer_cursor : Database → Outcome ℕ
unfolding reset_body
reset_observer_cursor = transaction λ db. reset_body db.active_attempt_id db

-- {"kind": …, "principal": …, **details}: a key of `details` that is there already takes the place
-- of its value.
put : String → Json → Fields → Fields
put key value end = field key value end
put key value (field k old rest) =
    if k == key then field k value rest else field k old (put key value rest)

merge : Fields → Fields → Fields
unfolding put
merge into end = into
merge into (field key value rest) = merge (put key value into) rest

row_fields : AuditEvent → Fields
row_fields row = field "kind" (text row.kind) (
    field "seq" (integer (pos row.seq)) (
      field "event_id" (text row.event_id) (
        field "request_id" (text row.request_id)
          (field "operation" (text row.operation) (field "principal" (text row.principal) end)))))

unfoldable pub with_details : AuditEvent → Option Json → Result Json
unfolding merge row_fields
with_details row (some (object details)) = ok (object (merge (row_fields row) details))
with_details row _ = err decode_error

unfoldable pub observer_event : Platform → AuditEvent → Result Json
unfolding with_details
observer_event platform row = with_details row (platform.loads row.details_json)

-- [self._observer_event(row) for row in rows]
unfoldable pub render : Platform → List AuditEvent → Result (List Json)
unfolding observer_event
render platform [] = ok []
render platform (row ∷ rows) = do
  event ← observer_event platform row
  events ← render platform rows
  ok (event ∷ events)

abbrev pub after_cursor : ObserverCursor → AuditEvent → Bool
after_cursor cursor row = ltb cursor.cursor_seq row.seq

-- The rows that `observer_events` renders, in order.
rows_after : String → Option ObserverCursor → Database → Result (List AuditEvent)
rows_after attempt_id none db = err fixture_error
rows_after attempt_id (some cursor) db =
    ok (fetch_all (after_cursor cursor) (ordered_events_of attempt_id db))

active_rows : Option String → Database → Result (List AuditEvent)
unfolding rows_after
active_rows none db = err invalid_attempt_state
active_rows (some attempt_id) db =
    rows_after attempt_id (fetch_one (cursor_of attempt_id) db.observer_cursors) db

-- The rows of `observer_events` before `_observer_event` renders each.
unfoldable pub observer_rows : Database → Result (List AuditEvent)
unfolding active_rows
observer_rows db = active_rows db.active_attempt_id db

unfoldable pub observer_events : Platform → Database → Result (List Json)
unfolding observer_rows render
observer_events platform db = do rows ← observer_rows db; render platform rows
