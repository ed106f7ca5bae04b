-- ===== src/Fixture/Tests.antt =====
-- The fixture of assurance/phase2/fixture/store.py on one attempt: created, opened, written to,
-- closed and snapshot, over a platform whose hash is the identity.
use mcp_behaviour_guard.Prelude.{String, ◌≡◌, refl, some, none, Option, false, true, any, all}
use mcp_behaviour_guard.Prelude.Table.{fetch_one, order_by, update, fetch_all}
use mcp_behaviour_guard.Fixture.Schema.{
  Platform, Database, Attempt, new_database, opened, fenced, ok, err, ◌>>=◌, FixtureError,
}
use mcp_behaviour_guard.Fixture.System.{
  Reach, Reach-IsWellFormed, next, here, create, open_step, write, close_step,
}
use mcp_behaviour_guard.Fixture.Lifecycle.{create_attempt, open_attempt, close_attempt}
use mcp_behaviour_guard.Fixture.Invariant.{IsWellFormed}
use mcp_behaviour_guard.Fixture.Final.{final_snapshot, finalize_attempt, describe}
use mcp_behaviour_guard.Json.{object, end}
use mcp_behaviour_guard.Fixture.Write.{
  Fault, business_write, WriteCall, response_loss, commit_write, is_request,
}
use mcp_behaviour_guard.Fixture.Query.{
  find_attempt, is_active, attempt_for_token, events_of, require_active_state, seq_before,
}
use mcp_behaviour_guard.Fixture.Invariant.Finish.{completed, ended, snapshot_rows}
use mcp_behaviour_guard.Fixture.System.Finalize.{final_snapshot_then_finalize, is_ok, is_readable}
use mcp_behaviour_guard.Fixture.System.Atomic.{lose_response, business_write_response_loss}
use mcp_behaviour_guard.Fixture.Write.Effect.{commit_outcome, commit_write_lem}
use mcp_behaviour_guard.Fixture.Ledger.{append_audit_event, check_rows, zero_hash, build_event}
use mcp_behaviour_guard.Fixture.Ledger.Chain.{order_by-check_rows}
use mcp_behaviour_guard.Fixture.Observe.{render}
use mcp_behaviour_guard.Fixture.System.Once.{business_write_once}

abbrev plain : Platform
plain = record { sha256 = λ s. s; dumps = λ j. "{}"; loads = λ s. some (object end) }

abbrev created : Database
created = (create_attempt plain (some "a") "x" "secret" "t0" new_database).1

abbrev opened_db : Database
opened_db = (open_attempt "a" "t1" created).1

abbrev call_of : String → Option Fault → WriteCall
call_of request fault = record {
  token = "secret";
  record_id = "r";
  value = "v";
  request_id = some request;
  fresh_request_id = "x";
  asserted_attempt_id = none;
  asserted_principal = none;
  barrier = none;
  fault = fault;
  now = "t2";
  event_id = "e";
  event_time = "t3";
  finish_time = "t4";
}

abbrev written : Database
written = (business_write plain (call_of "q" none) opened_db).1

abbrev closed : Database
closed = (close_attempt "a" "t5" written).1

closed-Reach : Reach plain new_database closed
closed-Reach =
    next
      (next (next (next here (create (some "a") "x" "secret" "t0")) (open_step "a" "t1"))
        (write (call_of "q" none)))
      (close_step "a" "t5")

abbrev opened_row : Attempt
opened_row = record {
  attempt_id = "a";
  credential_sha256 = "secret";
  principal = "candidate_app";
  state = opened;
  created_at = "t0";
  opened_at = some "t1";
  fenced_at = none;
  finalized_at = none;
  audit_watermark = 1;
  final_watermark = none;
  final_request_count = none;
  audit_complete = false;
}

abbrev closed_row : Attempt
closed_row = record opened_row { state = fenced; fenced_at = some "t5" }

found_closed : find_attempt "a" closed ≡ some closed_row
unfolding create_attempt open_attempt close_attempt business_write fetch_one require_active_state
    attempt_for_token update append_audit_event
found_closed = refl

active_closed : is_active closed.active_attempt_id "a" ≡ true
unfolding create_attempt open_attempt close_attempt business_write fetch_one require_active_state
    attempt_for_token update append_audit_event
active_closed = refl

Reach-IsWellFormed_example : IsWellFormed plain closed
Reach-IsWellFormed_example = Reach-IsWellFormed closed-Reach

final_snapshot_then_finalize_example :
    let taken = final_snapshot plain "a" closed in
    (taken.1 ≡ completed "a" closed_row closed)
    × (taken.0 ≡ (
        render plain (events_of "a" closed) >>= λ events.
        ok (describe "a" (snapshot_rows "a" closed_row closed) events)))
    × (is_ok taken.0 ≡ all (is_readable plain) (events_of "a" closed))
    × (finalize_attempt plain "a" "t6" taken.1
        ≡ (ok tt, ended "a" "t6" (completed "a" closed_row closed)))
final_snapshot_then_finalize_example =
    final_snapshot_then_finalize "a" "t6" closed_row (Reach-IsWellFormed closed-Reach) found_closed
      active_closed refl

business_write_response_loss_example :
    business_write plain (call_of "q" (some response_loss)) opened_db
    ≡ lose_response (business_write plain (call_of "q" none) opened_db)
business_write_response_loss_example =
    business_write_response_loss plain (call_of "q" none) opened_db

abbrev late : WriteCall
late = call_of "late" none

abbrev snapped : Database
snapped = (final_snapshot plain "a" closed).1

abbrev snapped_row : Attempt
snapped_row = record closed_row {
  audit_complete = true;
  final_watermark = some 1;
  final_request_count = some 1;
}

late_found : find_attempt "a" opened_db ≡ some (record opened_row { audit_watermark = 0 })
unfolding create_attempt open_attempt fetch_one require_active_state update
late_found = refl

fresh_opened : any (is_request "a" "q") opened_db.requests ≡ false
unfolding create_attempt open_attempt require_active_state fetch_one
fresh_opened = refl

commit_write_lem_example :
    commit_write plain (call_of "q" none) (record opened_row { audit_watermark = 0 }) opened_db
    ≡ commit_outcome plain (call_of "q" none) (record opened_row { audit_watermark = 0 }) opened_db
commit_write_lem_example =
    commit_write_lem plain (call_of "q" none) (record opened_row { audit_watermark = 0 }) opened_db
      late_found fresh_opened

valid_closed : check_rows plain 1 zero_hash (events_of "a" closed) ≡ ok tt
unfolding create_attempt open_attempt close_attempt business_write fetch_one require_active_state
    attempt_for_token update append_audit_event check_rows fetch_all build_event
valid_closed = refl

order_by-check_rows_example : order_by seq_before (events_of "a" closed) ≡ events_of "a" closed
order_by-check_rows_example =
    order_by-check_rows plain 1 zero_hash (events_of "a" closed) valid_closed

-- A write whose response was lost, tried again after the attempt was closed.
abbrev lost : Database
lost = (business_write plain (call_of "q" (some response_loss)) opened_db).1

lost-Reach : Reach plain new_database lost
lost-Reach =
    next (next (next here (create (some "a") "x" "secret" "t0")) (open_step "a" "t1"))
      (write (call_of "q" (some response_loss)))

used_lost : any (is_request "a" "q") lost.requests ≡ true
unfolding create_attempt open_attempt business_write fetch_one require_active_state
    attempt_for_token update append_audit_event
used_lost = refl

abbrev lost_closed : Database
lost_closed = (close_attempt "a" "t5" lost).1

owner_lost_closed : attempt_for_token plain lost_closed "secret" ≡ ok closed_row
unfolding create_attempt open_attempt close_attempt business_write fetch_one require_active_state
    attempt_for_token update append_audit_event
owner_lost_closed = refl

business_write_once_example :
    (e : FixtureError) × (business_write plain (call_of "q" none) lost_closed
      ≡ (err e, lost_closed))
business_write_once_example =
    business_write_once (call_of "q" none) closed_row (Reach-IsWellFormed lost-Reach) used_lost
      (next here (close_step "a" "t5")) owner_lost_closed
