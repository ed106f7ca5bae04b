-- ===== src/Fixture/Invariant.antt =====
-- The invariant of the fixture's database, assurance/phase2/fixture/store.py, and the two ways in
-- which a method changes an attempt's row and keeps it.
pub mod Unique
pub mod Touch
pub mod Lifecycle
pub mod Create
pub mod Finish
pub mod Write
use mcp_behaviour_guard.Prelude.{
  ℕ, zero, suc, String, ◌≡◌, Bool, true, false, Option, none, some, List, [], ◌∷◌, all, length,
}
use mcp_behaviour_guard.Fixture.Schema.{
  Attempt, AttemptState, finalized, aborted, Request, RequestState, committed, AuditEvent, Database,
  ok, Platform,
}
use mcp_behaviour_guard.Fixture.Query.{
  is_terminal, is_active, find_attempt, requests_of, events_of, has_id,
}
use mcp_behaviour_guard.Fixture.Ledger.{zero_hash, check_rows}
use mcp_behaviour_guard.Prelude.Table.{fetch_one}

-- Not yet finished.
abbrev pub is_live : AttemptState → Bool
is_live finalized = false
is_live aborted = false
is_live _ = true

abbrev pub count_if : RequestState → ℕ → ℕ
count_if committed n = suc n
count_if _ n = n

-- How many requests were committed.
abbrev pub committed_count : List Request → ℕ
committed_count [] = 0
committed_count (row ∷ rows) = count_if row.state (committed_count rows)

-- What holds of one identifier: without an attempt it has no rows and is not active. An attempt is
-- active exactly while it is live, its ledger is one valid hash chain as long as its watermark, all
-- its requests have ended, and as many were committed as the ledger has rows.
abbrev pub AttemptInv : Platform → Option Attempt → Bool → List AuditEvent → List Request → Type 0
AttemptInv platform none active events requests = (active ≡ false) × (events ≡ []) × (requests ≡ [])
AttemptInv platform (some row) active events requests =
    (active ≡ is_live row.state)
    × (length events ≡ row.audit_watermark)
    × (check_rows platform 1 zero_hash events ≡ ok tt)
    × (all (λ r. is_terminal r.state) requests ≡ true)
    × (committed_count requests ≡ row.audit_watermark)

-- PRIMARY KEY of `attempts`.
abbrev pub HasUniqueIds : List Attempt → Type 0
HasUniqueIds [] = Unit
HasUniqueIds (row ∷ rows) = (fetch_one (has_id row.attempt_id) rows ≡ none) × HasUniqueIds rows

pub record IsWellFormed (platform : Platform) (db : Database) : Type 0 where
  pub unique : HasUniqueIds db.attempts
  pub at :
      (a : String)
      → AttemptInv platform
          (find_attempt a db)
          (is_active db.active_attempt_id a)
          (events_of a db)
          (requests_of a db)
