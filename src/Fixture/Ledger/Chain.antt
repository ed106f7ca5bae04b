-- ===== src/Fixture/Ledger/Chain.antt =====
-- The hash chain of assurance/phase2/fixture/store.py: what `_validate_ledger` accepts is in order,
-- and stays accepted when `_append_audit_event` adds a row.
use mcp_behaviour_guard.Prelude.{
  ℕ, ◌+◌, String, ◌≡◌, refl, ap, Bool, true, ◌&&◌, some, List, [], ◌∷◌, ◌++◌, ◌==◌, eqb, arith,
  length,
}
use mcp_behaviour_guard.Prelude.Table.{fetch_one, fetch_all, order_by}
use mcp_behaviour_guard.Fixture.Schema.{AuditEvent, Database, ok, Platform}
use mcp_behaviour_guard.Fixture.Query.{audited_for, seq_before, events_of}
use mcp_behaviour_guard.Fixture.Ledger.{
  zero_hash, calculated_hash, hash_or_zero, at_seq, previous_hash, check_rows,
}

abbrev pub last_row : AuditEvent → List AuditEvent → AuditEvent
last_row row [] = row
last_row row (next ∷ rows) = last_row next rows

-- The hash that the row behind `rows` has to name.
abbrev pub last_hash : String → List AuditEvent → String
last_hash previous [] = previous
last_hash previous (row ∷ rows) = (last_row row rows).event_hash

abbrev pub fits : Platform → ℕ → String → AuditEvent → Bool
fits platform expected_seq previous row =
    eqb row.seq expected_seq
    && (row.prev_hash == previous && calculated_hash platform row == row.event_hash)

module _ (platform : Platform) where
  -- A row that fits at the end of an accepted list is accepted with it.
  pub check_rows-append :
      (n : ℕ) (h : String) (rows : List AuditEvent) (row : AuditEvent)
      → check_rows platform n h rows ≡ ok tt
      → fits platform (n + length rows) (last_hash h rows) row ≡ true
      → check_rows platform n h (rows ++ row ∷ []) ≡ ok tt
  unfolding check_rows
  check_rows-append n h [] row valid fit = ground arith
  check_rows-append n h (first ∷ []) row valid fit = ground arith
  check_rows-append n h (first ∷ second ∷ rows) row valid fit =
      ground (arith, check_rows-append (n + 1) first.event_hash (second ∷ rows) row)

  -- The numbers of accepted rows rise from the first one's.
  check_rows-seq :
      (n : ℕ) (h : String) (row : AuditEvent) (rows : List AuditEvent)
      → check_rows platform n h (row ∷ rows) ≡ ok tt
      → (row.seq ≡ n) × (check_rows platform (n + 1) row.event_hash rows ≡ ok tt)
  unfolding check_rows
  check_rows-seq n h row rows valid = ground arith

  -- Rows that the loop of `_validate_ledger` accepts, from any number and hash on, stand in the
  -- order of their numbers already: ORDER BY seq leaves them as they are.
  pub order_by-check_rows :
      (n : ℕ) (h : String) (rows : List AuditEvent)
      → check_rows platform n h rows ≡ ok tt
      → order_by seq_before rows ≡ rows
  unfolding order_by
  order_by-check_rows n h [] valid = refl
  order_by-check_rows n h (row ∷ []) valid = refl
  order_by-check_rows n h (row ∷ next ∷ rows) valid =
      let (first, rest) = check_rows-seq n h row (next ∷ rows) valid in
      let (second, _) = check_rows-seq (n + 1) row.event_hash next rows rest in
      rw (order_by-check_rows (n + 1) row.event_hash (next ∷ rows) rest) (ground arith)

  fetch_one_last :
      (n m : ℕ) (h : String) (row : AuditEvent) (rows : List AuditEvent)
      → m ≡ n + length rows
      → check_rows platform n h (row ∷ rows) ≡ ok tt
      → fetch_one (λ r. eqb r.seq m) (row ∷ rows) ≡ some (last_row row rows)
  unfolding fetch_one
  fetch_one_last n m h row [] e valid =
      let (first, _) = check_rows-seq n h row [] valid in ground arith
  fetch_one_last n m h row (next ∷ rows) e valid =
      let (first, rest) = check_rows-seq n h row (next ∷ rows) valid in
      ground (arith, fetch_one_last (n + 1) m row.event_hash next rows (omega arith) rest)

  fetch_one-at_seq :
      (a : String) (seq : ℕ) (rows : List AuditEvent)
      → fetch_one (at_seq a seq) rows
        ≡ fetch_one (λ r. eqb r.seq seq) (fetch_all (audited_for a) rows)
  unfolding fetch_one fetch_all
  fetch_one-at_seq a seq [] = refl
  fetch_one-at_seq a seq (row ∷ rows) = ground (arith, fetch_one-at_seq a seq rows)

  hash_at_end :
      (n : ℕ) (rows : List AuditEvent)
      → n ≡ length rows
      → check_rows platform 1 zero_hash rows ≡ ok tt
      → hash_or_zero (fetch_one (λ r. eqb r.seq n) rows) ≡ last_hash zero_hash rows
  unfolding fetch_one
  hash_at_end n [] e valid = refl
  hash_at_end n (row ∷ rows) e valid =
      ap hash_or_zero (fetch_one_last 1 n zero_hash row rows (omega arith) valid)

  -- The hash that a new row of an attempt names is that of the attempt's last row.
  pub previous_hash-last_hash :
      (a : String) (n : ℕ) (db : Database)
      → n ≡ length (events_of a db)
      → check_rows platform 1 zero_hash (events_of a db) ≡ ok tt
      → previous_hash a n db ≡ last_hash zero_hash (events_of a db)
  previous_hash-last_hash a n db e valid =
      rw (fetch_one-at_seq a n db.audit_events) (hash_at_end n (events_of a db) e valid)
