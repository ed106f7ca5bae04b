-- ===== src/Fixture/Invariant/Create.antt =====
-- `create_attempt` of assurance/phase2/fixture/store.py keeps the invariant of the database.
use mcp_behaviour_guard.Prelude.{
  String, ◌≡◌, refl, Bool, true, false, Option, none, some, ◌==◌, eq_iff, eq_refl, arith,
  Bool-cases, inl, inr, List, [], ◌∷◌, ◌++◌, ◌&&◌, not, ◌⊎◌, ==_comm_false,
}
use mcp_behaviour_guard.Fixture.Schema.{
  Attempt, Database, Platform, ok, FixtureError, err, Result-cases,
}
use mcp_behaviour_guard.Prelude.Table.{fetch_one, fetch_one-append_row, or_row_ne}
use mcp_behaviour_guard.Fixture.Lifecycle.{
  is_none, create_body, attempt_conflicts, new_attempt, create_attempt, given_or, cursor_conflicts,
}
use mcp_behaviour_guard.Fixture.Invariant.{IsWellFormed}
use mcp_behaviour_guard.Fixture.Query.{has_id, is_active, find_attempt}
use mcp_behaviour_guard.Fixture.Ledger.{check_rows}
use mcp_behaviour_guard.Fixture.Invariant.Unique.{HasUniqueIds-append_row}

find_of_no_conflict :
    (new : Attempt) (rows : List Attempt)
    → attempt_conflicts new rows ≡ false
    → fetch_one (has_id new.attempt_id) rows ≡ none
unfolding fetch_one
find_of_no_conflict new [] h = refl
find_of_no_conflict new (row ∷ rows) h = ground (arith, find_of_no_conflict new rows)

-- The row and the database that a successful `create_attempt` leaves.
abbrev pub created : Platform → String → String → String → Database → Database
created platform a token now db = record db {
  attempts = db.attempts ++ new_attempt platform a token now ∷ [];
  observer_cursors = db.observer_cursors ++ record { attempt_id = a; cursor_seq = 0 } ∷ [];
  active_attempt_id = some a;
}

abbrev pub create_guard : Platform → String → String → String → Database → Bool
create_guard platform a token now db =
    is_none db.active_attempt_id
    && (not (attempt_conflicts (new_attempt platform a token now) db.attempts)
        && not (cursor_conflicts a db.observer_cursors))

pub create_body_lem :
    (platform : Platform) (a token now : String) (db : Database)
    → (create_guard platform a token now db ≡ true)
        × (create_body platform a token now db
            ≡ ok (record { attempt_id = a; token = token }, created platform a token now db))
      ⊎ ((error : FixtureError) × (create_body platform a token now db ≡ err error))
unfolding create_body
create_body_lem platform a token now db =
    elim (Result-cases (create_body platform a token now db)) [
      | inl (r, e) ↦ inl (ground arith, ground arith)
      | inr e ↦ inr e
    ]

inactive :
    (active : Option String) (b : String) → is_none active ≡ true → is_active active b ≡ false
unfolding is_none
inactive none b h = refl
inactive (some a) b h = cc

module _ {platform : Platform} {db : Database} (wf : IsWellFormed platform db) where
  created-IsWellFormed :
      (a token now : String)
      → create_guard platform a token now db ≡ true
      → IsWellFormed platform (created platform a token now db)
  unfolding new_attempt check_rows
  created-IsWellFormed a token now guard =
      let new = new_attempt platform a token now in
      let idle : is_none db.active_attempt_id ≡ true = ground arith in
      let fresh : attempt_conflicts new db.attempts ≡ false = ground arith in
      let absent = find_of_no_conflict new db.attempts fresh in
      record {
        unique = HasUniqueIds-append_row db.attempts new absent wf.unique;
        at = λ b. rw (fetch_one-append_row (has_id b) db.attempts new) (elim (Bool-cases (b == a)) [
          | inl e ↦
              let old = rw absent at (wf.at a) in
              rw ((eq_iff b a).0 e, absent, eq_refl a, old.1, old.2) (refl, refl, refl, refl, refl)
          | inr e ↦
              let apart = ==_comm_false b a e in
              rw (or_row_ne (has_id b) new (find_attempt b db) apart, apart)
                (rw (inactive db.active_attempt_id b idle) at (wf.at b))
        ]);
      }

  pub create_attempt-IsWellFormed :
      (given : Option String) (fresh token now : String)
      → IsWellFormed platform (create_attempt platform given fresh token now db).1
  unfolding create_attempt
  create_attempt-IsWellFormed given fresh token now =
      elim (create_body_lem platform (given_or given fresh) token now db) [
        | inl (guard, e) ↦ rw e (created-IsWellFormed (given_or given fresh) token now guard)
        | inr (error, e) ↦ rw e wf
      ]
