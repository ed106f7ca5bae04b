-- ===== src/Fixture/Invariant/Finish.antt =====
-- `final_snapshot`, `finalize_attempt` and `reset_observer_cursor` of
-- assurance/phase2/fixture/store.py keep the invariant of the database.
use mcp_behaviour_guard.Prelude.{String, refl, Option, none, some, Option-cases, inl, inr, length}
use mcp_behaviour_guard.Fixture.Schema.{
  Attempt, Database, Platform, fenced, settle_bind, require, settle, drain_incomplete,
  invalid_attempt_state,
}
use mcp_behaviour_guard.Fixture.Final.{
  SnapshotRows, to_complete, to_finalized, final_snapshot, finalize_attempt, drained, is_count,
}
use mcp_behaviour_guard.Fixture.Query.{
  update_attempt, ordered_requests_of, find_attempt, ordered_events_of, require_active_state,
  require_active_state-ok, requests_of,
}
use mcp_behaviour_guard.Fixture.Invariant.{IsWellFormed}
use mcp_behaviour_guard.Fixture.Invariant.Touch.{retire-IsWellFormed, touch-IsWellFormed}
use mcp_behaviour_guard.Fixture.Ledger.{validate_ledger}
use mcp_behaviour_guard.Fixture.Observe.{reset_body, reset_observer_cursor, reset_row}

-- What the transaction of `final_snapshot` reads and stores for an attempt's row, and the test that
-- it makes.
abbrev pub snapshot_rows : String → Attempt → Database → SnapshotRows
snapshot_rows a row db = record {
  watermark = row.audit_watermark;
  requests = ordered_requests_of a db;
  audit = ordered_events_of a db;
}

abbrev pub completed : String → Attempt → Database → Database
completed a row db =
    update_attempt a (to_complete row.audit_watermark (length (ordered_requests_of a db))) db

abbrev pub ended : String → String → Database → Database
ended a now db = record (update_attempt a (to_finalized now) db) { active_attempt_id = none }

module _ {platform : Platform} {db : Database} (wf : IsWellFormed platform db) where
  pub final_snapshot-IsWellFormed :
      (a : String) → IsWellFormed platform (final_snapshot platform a db).1
  unfolding final_snapshot
  final_snapshot-IsWellFormed a =
      settle_bind (IsWellFormed platform) db (require_active_state db a fenced) _ wf λ row e.
        settle_bind (IsWellFormed platform) db (require (drained a db) drain_incomplete) _ wf λ _ _.
          settle_bind (IsWellFormed platform) db
            (validate_ledger platform row (ordered_events_of a db)) _ wf
            λ _ _.
              let (active, found, state) = require_active_state-ok db a fenced e in
              touch-IsWellFormed a
                (to_complete row.audit_watermark (length (ordered_requests_of a db))) db row
                (λ r. refl) (λ r. refl) found wf (rw state)

  pub finalize_attempt-IsWellFormed :
      (a now : String) → IsWellFormed platform (finalize_attempt platform a now db).1
  unfolding finalize_attempt
  finalize_attempt-IsWellFormed a now =
      settle_bind (IsWellFormed platform) db (require_active_state db a fenced) _ wf λ row e.
        settle_bind (IsWellFormed platform) db (require row.audit_complete invalid_attempt_state) _
          wf
          λ _ _.
            settle_bind (IsWellFormed platform) db (require (drained a db) drain_incomplete) _ wf
              λ _ _.
                settle_bind (IsWellFormed platform) db
                  (require (is_count row.final_request_count (length (requests_of a db)))
                    invalid_attempt_state)
                  _ wf
                  λ _ _.
                    settle_bind (IsWellFormed platform) db
                      (require (is_count row.final_watermark row.audit_watermark)
                        invalid_attempt_state)
                      _ wf
                      λ _ _.
                        settle_bind (IsWellFormed platform) db
                          (validate_ledger platform row (ordered_events_of a db)) _ wf
                          λ _ _.
                            let (active, found, state) = require_active_state-ok db a fenced e in
                            retire-IsWellFormed a (to_finalized now) db row (λ r. refl) (λ r. refl)
                              found wf active refl

  reset_body-IsWellFormed :
      (active : Option String) → IsWellFormed platform (settle db (reset_body active db)).1
  unfolding reset_body
  reset_body-IsWellFormed none = wf
  reset_body-IsWellFormed (some a) = elim (Option-cases (find_attempt a db)) [
    | inl e ↦ rw (e, reset_row) wf
    | inr (row, e) ↦ rw (e, reset_row) (record { unique = wf.unique; at = wf.at })
  ]

  pub reset_observer_cursor-IsWellFormed : IsWellFormed platform (reset_observer_cursor db).1
  unfolding reset_observer_cursor
  reset_observer_cursor-IsWellFormed = reset_body-IsWellFormed db.active_attempt_id
