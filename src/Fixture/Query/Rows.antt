-- ===== src/Fixture/Query/Rows.antt =====
-- What the row queries of assurance/phase2/fixture/store.py return after an update or an insert.
use mcp_behaviour_guard.Prelude.{
  String, ◌≡◌, ap, Option, none, some, ◌==◌, eq_iff, if◌then◌else◌, Option-cases, inl, inr,
}
use mcp_behaviour_guard.Prelude.Table.{fetch_one-update, fetch_one_passes}
use mcp_behaviour_guard.Fixture.Schema.{Attempt, Database}
use mcp_behaviour_guard.Fixture.Query.{has_id, find_attempt, update_attempt}

pub id-find_attempt :
    (a : String) (db : Database) {row : Attempt} → find_attempt a db ≡ some row → row.attempt_id ≡ a
id-find_attempt a db {row} h =
    (eq_iff row.attempt_id a).0 (fetch_one_passes (has_id a) db.attempts h)

abbrev pub change_if : String → String → (Attempt → Attempt) → Option Attempt → Option Attempt
change_if a b change none = none
change_if a b change (some row) = some (if a == b then change row else row)

-- An update that keeps the key changes the row of that key and no other.
pub find_attempt-update_attempt :
    (a b : String) (change : Attempt → Attempt) (db : Database)
    → ((row : Attempt) → (change row).attempt_id ≡ row.attempt_id)
    → find_attempt a (update_attempt b change db) ≡ change_if a b change (find_attempt a db)
find_attempt-update_attempt a b change db keeps =
    rw
      (fetch_one-update (has_id a) (has_id b) change db.attempts
        (λ row. ap (λ k. k == a) (keeps row)))
      (elim (Option-cases (find_attempt a db)) [
        | inl e ↦ rw e
        | inr (row, e) ↦ rw e (rw (id-find_attempt a db e))
      ])
