-- ===== src/Fixture/Invariant/Write.antt =====
-- `business_write` of assurance/phase2/fixture/store.py keeps the invariant of the database, its
-- rejections and its committed writes alike.
use mcp_behaviour_guard.Prelude.{
  String, ◌≡◌, refl, ap, some, List, [], ◌∷◌, ◌++◌, ◌==◌, eq_iff, eq_refl, arith, Bool-cases, inl,
  inr, all, ℕ, true, sym, ◌+◌, ==_comm_false, length, length-append, any, false, not, ◌-◌,
}
use mcp_behaviour_guard.Fixture.Schema.{
  Attempt, Database, Platform, Request, rejected, AuditEvent, StoredRecord, committed, ok, settle,
  Result-cases, settle_bind, require, request_conflict, opened,
}
use mcp_behaviour_guard.Fixture.Invariant.{IsWellFormed, committed_count, count_if}
use mcp_behaviour_guard.Fixture.Query.{
  find_attempt, is_terminal, requested_by, has_id, requests_of, events_of, audited_for,
  attempt_for_token, is_active, has_credential, attempt_for_token-ok, is_state,
}
use mcp_behaviour_guard.Prelude.Table.{fetch_all-append_row, update}
use mcp_behaviour_guard.Fixture.Ledger.Chain.{
  fits, last_hash, check_rows-append, previous_hash-last_hash,
}
use mcp_behaviour_guard.Fixture.Ledger.{
  zero_hash, build_event, audit_event_payload, event_conflicts,
}
use mcp_behaviour_guard.Fixture.Invariant.Unique.{HasUniqueIds-update, fetch_one_by_id}
use mcp_behaviour_guard.Fixture.Query.Rows.{find_attempt-update_attempt}
use mcp_behaviour_guard.Fixture.Invariant.Touch.{change_if-ne}
use mcp_behaviour_guard.Fixture.Write.{
  reject, commit_write, write_body, business_write, WriteCall, is_request, wait, request_of,
  after_write_lock, before_transaction, after_barrier, new_event, same_fault, audit_failure,
  crash_before_commit, new_request, upsert_record, written_record,
}
use mcp_behaviour_guard.Fixture.Write.Effect.{
  set_watermark, committed_database, committed_event, committed_request, commit_write_lem,
}

all_ended-append_row :
    (rows : List Request) (new : Request)
    → all (λ r. is_terminal r.state) rows ≡ true
    → is_terminal new.state ≡ true
    → all (λ r. is_terminal r.state) (rows ++ new ∷ []) ≡ true
all_ended-append_row [] new h e = ground arith
all_ended-append_row (row ∷ rows) new h e = ground (arith, all_ended-append_row rows new)

committed_count-append_row :
    (rows : List Request) (new : Request)
    → committed_count (rows ++ new ∷ []) ≡ count_if new.state (committed_count rows)
committed_count-append_row [] new = refl
committed_count-append_row (row ∷ rows) new = ground (arith, committed_count-append_row rows new)

module _ {platform : Platform} {db : Database} (wf : IsWellFormed platform db) (row : Attempt)
    (new : Request) (found : find_attempt new.attempt_id db ≡ some row) where
  -- A rejection is stored.
  pub rejected-IsWellFormed :
      new.state ≡ rejected
      → IsWellFormed platform (record db { requests = db.requests ++ new ∷ [] })
  rejected-IsWellFormed state = record {
    unique = wf.unique;
    at = λ b.
        rw (fetch_all-append_row (requested_by b) db.requests new)
          (elim (Bool-cases (new.attempt_id == b)) [
            | inl e ↦
                let old = rw found at (wf.at new.attempt_id) in
                let rows = requests_of new.attempt_id db in
                rw (sym ((eq_iff new.attempt_id b).0 e), eq_refl new.attempt_id, found)
                  (
                    old.0,
                    old.1,
                    old.2,
                    all_ended-append_row rows new old.3 (rw state),
                    rw (committed_count-append_row rows new, state) (old.4),
                  )
            | inr e ↦ rw e (wf.at b)
          ]);
  }

  -- A committed write: the row's watermark, the request, the record, and one more audit event.
  abbrev pub extended : AuditEvent → List StoredRecord → Database
  extended event records = record db {
    attempts = update (has_id new.attempt_id) (set_watermark event.seq) db.attempts;
    requests = db.requests ++ new ∷ [];
    records = records;
    audit_events = db.audit_events ++ event ∷ [];
  }

  pub extended-IsWellFormed :
      (event : AuditEvent) (records : List StoredRecord)
      → new.state ≡ committed
      → event.attempt_id ≡ new.attempt_id
      → fits platform
          (1 + length (events_of new.attempt_id db))
          (last_hash zero_hash (events_of new.attempt_id db))
          event
        ≡ true
      → IsWellFormed platform (extended event records)
  extended-IsWellFormed event records state owned fit = record {
    unique =
        HasUniqueIds-update new.attempt_id (set_watermark event.seq) db.attempts (λ r. refl)
          wf.unique;
    at = λ b.
        rw
          (
            find_attempt-update_attempt b new.attempt_id (set_watermark event.seq) db (λ r. refl),
            fetch_all-append_row (requested_by b) db.requests new,
            fetch_all-append_row (audited_for b) db.audit_events event,
            ap (λ k. k == b) owned,
          )
          (elim (Bool-cases (new.attempt_id == b)) [
            | inl e ↦
                let old = rw found at (wf.at new.attempt_id) in
                let events = events_of new.attempt_id db in
                let rows = requests_of new.attempt_id db in
                let numbered : event.seq ≡ 1 + length events = ground arith in
                rw
                  (
                    sym ((eq_iff new.attempt_id b).0 e),
                    eq_refl new.attempt_id,
                    found,
                    eq_refl new.attempt_id,
                  )
                  (
                    old.0,
                    omega (arith, length-append events (event ∷ []), numbered),
                    check_rows-append platform 1 zero_hash events event old.2 fit,
                    all_ended-append_row rows new old.3 (rw state),
                    rw (committed_count-append_row rows new, state)
                        (omega (arith, old.1, old.4, numbered)),
                  )
            | inr e ↦
                rw
                  (
                    e,
                    change_if-ne new.attempt_id b (set_watermark event.seq) (find_attempt b db)
                        (==_comm_false new.attempt_id b e),
                  )
                  (wf.at b)
          ]);
  }

module _ {platform : Platform} {db : Database} (wf : IsWellFormed platform db) where
  pub attempt_for_token-found :
      (token : String) {row : Attempt}
      → attempt_for_token platform db token ≡ ok row
      → (find_attempt row.attempt_id db ≡ some row)
        × (is_active db.active_attempt_id row.attempt_id ≡ true)
  attempt_for_token-found token {row} e =
      let (fetched, active) = attempt_for_token-ok platform db token e in
      (
        fetch_one_by_id (has_credential (platform.sha256 token)) db.attempts wf.unique fetched,
        active,
      )

  reject-IsWellFormed :
      (call : WriteCall) (row : Attempt)
      → find_attempt row.attempt_id db ≡ some row
      → IsWellFormed platform (reject call row db).1
  unfolding reject
  reject-IsWellFormed call row found = rejected-IsWellFormed wf row _ found refl

  committed_event-fits :
      (call : WriteCall) (row : Attempt)
      → find_attempt row.attempt_id db ≡ some row
      → fits platform
          (1 + length (events_of row.attempt_id db))
          (last_hash zero_hash (events_of row.attempt_id db))
          (committed_event platform call row db)
        ≡ true
  unfolding build_event audit_event_payload
  committed_event-fits call row found =
      let old = rw found at (wf.at row.attempt_id) in
      let event = committed_event platform call row db in
      let n : ℕ = row.audit_watermark + 1 - 1 in
      let numbered : n ≡ length (events_of row.attempt_id db) = omega (arith, old.1) in
      rw (← previous_hash-last_hash platform row.attempt_id n db numbered old.2)
        (ground (arith, old.1, eq_refl event.prev_hash, eq_refl event.event_hash))

  commit_write-IsWellFormed :
      (call : WriteCall) (row : Attempt)
      → find_attempt row.attempt_id db ≡ some row
      → any (is_request row.attempt_id (request_of call)) db.requests ≡ false
      → IsWellFormed platform (settle db (commit_write platform call row db)).1
  unfolding new_request build_event new_event
  commit_write-IsWellFormed call row found fresh =
      let after : IsWellFormed platform (committed_database platform call row db) =
        extended-IsWellFormed wf row (committed_request call row) found
          (committed_event platform call row db)
          (upsert_record (written_record call row.attempt_id) db.records) refl refl
          (committed_event-fits call row found) in
      rw (commit_write_lem platform call row db found fresh)
        (elim (Bool-cases (same_fault call.fault audit_failure)) [
          | inl e ↦ rw e wf
          | inr e ↦
              rw e
                (elim (Bool-cases
                  (event_conflicts (committed_event platform call row db) db.audit_events)) [
                    | inl c ↦ rw c wf
                    | inr c ↦ rw c (elim (Bool-cases (same_fault call.fault crash_before_commit)) [
                      | inl f ↦ rw f wf
                      | inr f ↦ rw f after
                    ])
                  ])
        ])

  write_body-IsWellFormed :
      (call : WriteCall) → IsWellFormed platform (settle db (write_body platform call db)).1
  unfolding write_body
  write_body-IsWellFormed call =
      settle_bind (IsWellFormed platform) db (wait call.barrier after_write_lock) _ wf λ _ _.
        settle_bind (IsWellFormed platform) db (attempt_for_token platform db call.token) _ wf
          λ row e.
            settle_bind (IsWellFormed platform) db
              (require (not (any (is_request row.attempt_id (request_of call)) db.requests))
                request_conflict)
              _ wf
              λ _ fresh.
                let (found, active) = attempt_for_token-found call.token e in
                elim (Bool-cases (is_state row.state opened)) [
                  | inl open_now ↦
                      rw open_now (commit_write-IsWellFormed call row found (ground arith))
                  | inr shut ↦ rw shut (reject-IsWellFormed call row found)
                ]

  pub business_write-IsWellFormed :
      (call : WriteCall) → IsWellFormed platform (business_write platform call db).1
  unfolding business_write
  business_write-IsWellFormed call = elim (Result-cases (wait call.barrier before_transaction)) [
    | inl (u, e) ↦ rw (e, after_barrier) (write_body-IsWellFormed call)
    | inr (x, e) ↦ rw (e, after_barrier) wf
  ]
