-- ===== src/Fixture/System/Used.antt =====
-- A request of `business_write` in assurance/phase2/fixture/store.py is never forgotten: no method and
-- no restart makes an attempt lose an identifier that it has used.
use mcp_behaviour_guard.Prelude.{
  String, ◌≡◌, refl, true, false, Option, none, some, List, [], ◌∷◌, ◌++◌, any, arith, inl, inr,
  Bool, Bool-cases, Option-cases, not, length,
}
use mcp_behaviour_guard.Fixture.Schema.{
  Attempt, AttemptState, Database, Platform, Request, settle, settle_bind, require, Result-cases,
  fenced, opened, prepared, recovery_required, finalized, aborted, drain_incomplete,
  invalid_attempt_state, active_attempt_exists, integrity_error, request_conflict,
}
use mcp_behaviour_guard.Fixture.Query.{
  find_attempt, require_active_state, attempt_for_token, is_state, ordered_events_of, requests_of,
}
use mcp_behaviour_guard.Fixture.Lifecycle.{
  bootstrap, recover, recover_row, create_attempt, create_body, is_none, open_attempt,
  close_attempt, abort_recovery, pending_for, to_failed, attempt_conflicts, new_attempt, given_or,
  cursor_conflicts,
}
use mcp_behaviour_guard.Fixture.Observe.{reset_observer_cursor, reset_body, reset_row}
use mcp_behaviour_guard.Fixture.Final.{final_snapshot, finalize_attempt, drained, is_count}
use mcp_behaviour_guard.Fixture.Ledger.{validate_ledger, event_conflicts}
use mcp_behaviour_guard.Fixture.Write.{
  WriteCall, business_write, is_request, request_of, write_body, commit_write, reject,
  after_barrier, wait, before_transaction, after_write_lock, same_fault, audit_failure,
  crash_before_commit,
}
use mcp_behaviour_guard.Fixture.System.{
  Step, restart, create, open_step, close_step, abort_step, write, reset_step, snapshot_step,
  finalize_step, Reach, here, next, Step-IsWellFormed,
}
use mcp_behaviour_guard.Prelude.Table.{update}
use mcp_behaviour_guard.Fixture.Invariant.{IsWellFormed}
use mcp_behaviour_guard.Fixture.Write.Effect.{committed_request, commit_write_lem, committed_event}
use mcp_behaviour_guard.Fixture.Invariant.Write.{attempt_for_token-found}

module _ (a r : String) where
  -- The attempt `a` has used the request identifier `r`.
  abbrev pub is_used : List Request → Bool
  is_used rows = any (is_request a r) rows

  abbrev pub IsUsed : Database → Type 0
  IsUsed db = is_used db.requests ≡ true

  used_append : (rows more : List Request) → is_used rows ≡ true → is_used (rows ++ more) ≡ true
  used_append [] more h = cc
  used_append (x ∷ rows) more h = ground (arith, used_append rows more)

  used_update :
      (test : Request → Bool) (change : Request → Request) (rows : List Request)
      → ((row : Request) → is_request a r (change row) ≡ is_request a r row)
      → is_used rows ≡ true
      → is_used (update test change rows) ≡ true
  unfolding update
  used_update test change [] same h = cc
  used_update test change (x ∷ rows) same h =
      ground (arith, same x, used_update test change rows same)

  module _ {platform : Platform} (db : Database) (wf : IsWellFormed platform db)
      (used : IsUsed db) where
    recover_row-IsUsed :
        (active : String) (row : Attempt) (state : AttemptState)
        → row.state ≡ state
        → IsUsed (settle db (recover_row active (some row) db)).1
    unfolding recover_row
    recover_row-IsUsed active row prepared e = rw (e, recover_row) used
    recover_row-IsUsed active row opened e = rw (e, recover_row) used
    recover_row-IsUsed active row fenced e = rw (e, recover_row) used
    recover_row-IsUsed active row recovery_required e = rw (e, recover_row) used
    recover_row-IsUsed active row finalized e = rw (e, recover_row) used
    recover_row-IsUsed active row aborted e = rw (e, recover_row) used

    recover-IsUsed : (active : Option String) → IsUsed (settle db (recover active db)).1
    unfolding recover
    recover-IsUsed none = used
    recover-IsUsed (some active) = elim (Option-cases (find_attempt active db)) [
      | inl e ↦ rw (e, recover_row) used
      | inr (row, e) ↦ rw (e, recover_row) (recover_row-IsUsed active row row.state refl)
    ]

    bootstrap-IsUsed : IsUsed (bootstrap db).1
    unfolding bootstrap
    bootstrap-IsUsed = recover-IsUsed db.active_attempt_id

    create_attempt-IsUsed :
        (given : Option String) (fresh token now : String)
        → IsUsed (create_attempt platform given fresh token now db).1
    unfolding create_attempt create_body
    create_attempt-IsUsed given fresh token now =
        settle_bind IsUsed db (require (is_none db.active_attempt_id) active_attempt_exists) _ used
          λ _ _.
            settle_bind IsUsed db
              (require
                (not (
                  attempt_conflicts (new_attempt platform (given_or given fresh) token now)
                    db.attempts))
                integrity_error)
              _ used
              λ _ _.
                settle_bind IsUsed db
                  (require (not (cursor_conflicts (given_or given fresh) db.observer_cursors))
                    integrity_error)
                  _ used λ _ _. used

    open_attempt-IsUsed : (b now : String) → IsUsed (open_attempt b now db).1
    unfolding open_attempt
    open_attempt-IsUsed b now =
        settle_bind IsUsed db (require_active_state db b prepared) _ used λ _ _. used

    close_attempt-IsUsed : (b now : String) → IsUsed (close_attempt b now db).1
    unfolding close_attempt
    close_attempt-IsUsed b now =
        settle_bind IsUsed db (require_active_state db b opened) _ used λ _ _. used

    abort_recovery-IsUsed : (b now : String) → IsUsed (abort_recovery b now db).1
    unfolding abort_recovery
    abort_recovery-IsUsed b now =
        settle_bind IsUsed db (require_active_state db b recovery_required) _ used
          λ _ _. used_update (pending_for b) (to_failed now) db.requests (λ row. refl) used

    reset_body-IsUsed : (active : Option String) → IsUsed (settle db (reset_body active db)).1
    unfolding reset_body
    reset_body-IsUsed none = used
    reset_body-IsUsed (some b) = elim (Option-cases (find_attempt b db)) [
      | inl e ↦ rw (e, reset_row) used
      | inr (row, e) ↦ rw (e, reset_row) used
    ]

    final_snapshot-IsUsed : (b : String) → IsUsed (final_snapshot platform b db).1
    unfolding final_snapshot
    final_snapshot-IsUsed b =
        settle_bind IsUsed db (require_active_state db b fenced) _ used λ row _.
          settle_bind IsUsed db (require (drained b db) drain_incomplete) _ used λ _ _.
            settle_bind IsUsed db (validate_ledger platform row (ordered_events_of b db)) _ used
              λ _ _. used

    finalize_attempt-IsUsed : (b now : String) → IsUsed (finalize_attempt platform b now db).1
    unfolding finalize_attempt
    finalize_attempt-IsUsed b now =
        settle_bind IsUsed db (require_active_state db b fenced) _ used λ row _.
          settle_bind IsUsed db (require row.audit_complete invalid_attempt_state) _ used λ _ _.
            settle_bind IsUsed db (require (drained b db) drain_incomplete) _ used λ _ _.
              settle_bind IsUsed db
                (require (is_count row.final_request_count (length (requests_of b db)))
                  invalid_attempt_state)
                _ used
                λ _ _.
                  settle_bind IsUsed db
                    (require (is_count row.final_watermark row.audit_watermark)
                      invalid_attempt_state)
                    _ used
                    λ _ _.
                      settle_bind IsUsed db (validate_ledger platform row (ordered_events_of b db))
                        _ used λ _ _. used

    commit_write-IsUsed :
        (call : WriteCall) (row : Attempt)
        → find_attempt row.attempt_id db ≡ some row
        → any (is_request row.attempt_id (request_of call)) db.requests ≡ false
        → IsUsed (settle db (commit_write platform call row db)).1
    commit_write-IsUsed call row found fresh =
        let more = used_append db.requests (committed_request call row ∷ []) used in
        rw (commit_write_lem platform call row db found fresh)
          (elim (Bool-cases (same_fault call.fault audit_failure)) [
            | inl e ↦ rw e used
            | inr e ↦
                rw e
                  (elim (Bool-cases
                    (event_conflicts (committed_event platform call row db) db.audit_events)) [
                      | inl c ↦ rw c used
                      | inr c ↦
                          rw c (elim (Bool-cases (same_fault call.fault crash_before_commit)) [
                            | inl f ↦ rw f used
                            | inr f ↦ rw f more
                          ])
                    ])
          ])

    write_body-IsUsed : (call : WriteCall) → IsUsed (settle db (write_body platform call db)).1
    unfolding write_body reject
    write_body-IsUsed call =
        settle_bind IsUsed db (wait call.barrier after_write_lock) _ used λ _ _.
          settle_bind IsUsed db (attempt_for_token platform db call.token) _ used λ row e.
            settle_bind IsUsed db
              (require (not (any (is_request row.attempt_id (request_of call)) db.requests))
                request_conflict)
              _ used
              λ _ fresh.
                let (found, active) = attempt_for_token-found wf call.token e in
                elim (Bool-cases (is_state row.state opened)) [
                  | inl open_now ↦ rw open_now (commit_write-IsUsed call row found (ground arith))
                  | inr shut ↦ rw shut (used_append db.requests _ used)
                ]

    business_write-IsUsed : (call : WriteCall) → IsUsed (business_write platform call db).1
    unfolding business_write
    business_write-IsUsed call = elim (Result-cases (wait call.barrier before_transaction)) [
      | inl (u, e) ↦ rw (e, after_barrier) (write_body-IsUsed call)
      | inr (x, e) ↦ rw (e, after_barrier) used
    ]

  Step-IsUsed :
      {platform : Platform} {db after : Database}
      → Step platform db after
      → IsWellFormed platform db
      → IsUsed db
      → IsUsed after
  unfolding reset_observer_cursor
  Step-IsUsed {db = db} restart wf used = bootstrap-IsUsed db wf used
  Step-IsUsed {db = db} (create given fresh token now) wf used =
      create_attempt-IsUsed db wf used given fresh token now
  Step-IsUsed {db = db} (open_step b now) wf used = open_attempt-IsUsed db wf used b now
  Step-IsUsed {db = db} (close_step b now) wf used = close_attempt-IsUsed db wf used b now
  Step-IsUsed {db = db} (abort_step b now) wf used = abort_recovery-IsUsed db wf used b now
  Step-IsUsed {db = db} (write call) wf used = business_write-IsUsed db wf used call
  Step-IsUsed {db = db} reset_step wf used = reset_body-IsUsed db wf used db.active_attempt_id
  Step-IsUsed {db = db} (snapshot_step b) wf used = final_snapshot-IsUsed db wf used b
  Step-IsUsed {db = db} (finalize_step b now) wf used = finalize_attempt-IsUsed db wf used b now

  pub Reach-IsUsed :
      {platform : Platform} {db later : Database}
      → Reach platform db later
      → IsWellFormed platform db
      → IsUsed db
      → IsWellFormed platform later × IsUsed later
  Reach-IsUsed here wf used = (wf, used)
  Reach-IsUsed (next path step) wf used =
      let (wf', used') = Reach-IsUsed path wf used in
      (Step-IsWellFormed step wf', Step-IsUsed step wf' used')
