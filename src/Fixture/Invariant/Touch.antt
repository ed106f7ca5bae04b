-- ===== src/Fixture/Invariant/Touch.antt =====
-- Updates of the active attempt's row that keep the invariant of the fixture's database.
use mcp_behaviour_guard.Prelude.{
  String, ◌≡◌, refl, true, false, Option, none, some, ◌==◌, eq_iff, eq_refl, arith, Bool-cases, inl,
  inr,
}
use mcp_behaviour_guard.Fixture.Schema.{Attempt, Database, Platform}
use mcp_behaviour_guard.Fixture.Query.{is_active, find_attempt, update_attempt}
use mcp_behaviour_guard.Fixture.Query.Rows.{find_attempt-update_attempt, change_if}
use mcp_behaviour_guard.Fixture.Invariant.{is_live, IsWellFormed}
use mcp_behaviour_guard.Fixture.Invariant.Unique.{HasUniqueIds-update}

pub change_if-ne :
    (a b : String) (change : Attempt → Attempt) (found : Option Attempt)
    → (b == a) ≡ false
    → change_if b a change found ≡ found
change_if-ne a b change none e = refl
change_if-ne a b change (some row) e = rw e

-- At most one attempt is active.
pub is_active_ne :
    (active : Option String) (a b : String)
    → is_active active a ≡ true
    → (b == a) ≡ false
    → is_active active b ≡ false
is_active_ne none a b h e = refl
is_active_ne (some c) a b h e = ground (arith, eq_iff c a, eq_iff b a, eq_iff c b)

module _ {platform : Platform} (a : String) (change : Attempt → Attempt) (db : Database)
    (row : Attempt) (keeps : (r : Attempt) → (change r).attempt_id ≡ r.attempt_id)
    (marks : (r : Attempt) → (change r).audit_watermark ≡ r.audit_watermark)
    (found : find_attempt a db ≡ some row) (wf : IsWellFormed platform db) where
  -- The row stays live: `open_attempt`, `close_attempt`, `final_snapshot`, a restart.
  pub touch-IsWellFormed :
      is_live (change row).state ≡ is_live row.state
      → IsWellFormed platform (update_attempt a change db)
  touch-IsWellFormed lives = record {
    unique = HasUniqueIds-update a change db.attempts keeps wf.unique;
    at = λ b. rw (find_attempt-update_attempt b a change db keeps) (elim (Bool-cases (b == a)) [
      | inl e ↦
          let old = rw found at (wf.at a) in
          rw ((eq_iff b a).0 e, found, eq_refl a, marks row, lives) old
      | inr e ↦ rw (change_if-ne a b change (find_attempt b db) e) (wf.at b)
    ]);
  }

  -- The active attempt ends: `abort_recovery`, `finalize_attempt`.
  pub retire-IsWellFormed :
      is_active db.active_attempt_id a ≡ true
      → is_live (change row).state ≡ false
      → IsWellFormed platform (record (update_attempt a change db) { active_attempt_id = none })
  retire-IsWellFormed active ends = record {
    unique = HasUniqueIds-update a change db.attempts keeps wf.unique;
    at = λ b. rw (find_attempt-update_attempt b a change db keeps) (elim (Bool-cases (b == a)) [
      | inl e ↦
          let old = rw found at (wf.at a) in
          rw ((eq_iff b a).0 e, found, eq_refl a, marks row, ends)
            (refl, old.1, old.2, old.3, old.4)
      | inr e ↦
          rw (change_if-ne a b change (find_attempt b db) e)
            (rw (is_active_ne db.active_attempt_id a b active e) at (wf.at b))
    ]);
  }
