-- ===== src/Fixture/Invariant/Lifecycle.antt =====
-- The methods of assurance/phase2/fixture/store.py that move an attempt through its states keep
-- the invariant of the database.
use mcp_behaviour_guard.Prelude.{
  String, ◌≡◌, refl, true, false, some, eq_refl, arith, Option-cases, inl, inr, List, all, any, ◌∷◌,
  ◌∙◌, sym, [], Option, none,
}
use mcp_behaviour_guard.Fixture.Schema.{
  Attempt, Database, Platform, Request, Result-cases, prepared, opened, recovery_required,
  AttemptState, settle, fenced, finalized, aborted,
}
use mcp_behaviour_guard.Fixture.Invariant.{IsWellFormed, is_live}
use mcp_behaviour_guard.Prelude.Table.{update, fetch_all-update, update_none}
use mcp_behaviour_guard.Fixture.Lifecycle.{
  pending_for, open_attempt, close_attempt, abort_recovery, bootstrap, to_failed, to_opened,
  to_fenced, to_aborted, recover_row, recover, to_recovery,
}
use mcp_behaviour_guard.Fixture.Query.{
  requests_of, is_terminal, find_attempt, requested_by, require_active_state,
  require_active_state-ok, is_active,
}
use mcp_behaviour_guard.Fixture.Invariant.Touch.{touch-IsWellFormed, retire-IsWellFormed}

module _ {platform : Platform} {db : Database} (wf : IsWellFormed platform db) where
  -- All requests of an attempt have ended.
  pub requests_ended : (a : String) → all (λ r. is_terminal r.state) (requests_of a db) ≡ true
  requests_ended a = elim (Option-cases (find_attempt a db)) [
    | inl e ↦ let old = rw e at (wf.at a) in rw old.2
    | inr (row, e) ↦ let old = rw e at (wf.at a) in old.3
  ]

none_pending :
    (a : String) (rows : List Request)
    → all (λ r. is_terminal r.state) rows ≡ true
    → any (pending_for a) rows ≡ false
none_pending a [] h = refl
none_pending a (row ∷ rows) h = ground (arith, none_pending a rows)

abbrev fail_pending : String → String → Database → Database
fail_pending a now db = record db { requests = update (pending_for a) (to_failed now) db.requests }

module _ {platform : Platform} {db : Database} (wf : IsWellFormed platform db) where
  requests_of-fail_pending :
      (a now b : String) → requests_of b (fail_pending a now db) ≡ requests_of b db
  requests_of-fail_pending a now b =
      fetch_all-update (requested_by b) (pending_for a) (to_failed now) db.requests (λ row. refl)
      ∙ update_none (pending_for a) (to_failed now) (requests_of b db)
          (none_pending a (requests_of b db) (requests_ended wf b))

  fail_pending-IsWellFormed : (a now : String) → IsWellFormed platform (fail_pending a now db)
  fail_pending-IsWellFormed a now = record {
    unique = wf.unique;
    at = λ b. rw (requests_of-fail_pending a now b) (wf.at b);
  }

  pub open_attempt-IsWellFormed : (a now : String) → IsWellFormed platform (open_attempt a now db).1
  unfolding open_attempt
  open_attempt-IsWellFormed a now = elim (Result-cases (require_active_state db a prepared)) [
    | inl (row, e) ↦
        let (active, found, state) = require_active_state-ok db a prepared e in
        rw e
          (touch-IsWellFormed a (to_opened now) db row (λ r. refl) (λ r. refl) found wf (rw state))
    | inr (error, e) ↦ rw e wf
  ]

  pub close_attempt-IsWellFormed :
      (a now : String) → IsWellFormed platform (close_attempt a now db).1
  unfolding close_attempt
  close_attempt-IsWellFormed a now = elim (Result-cases (require_active_state db a opened)) [
    | inl (row, e) ↦
        let (active, found, state) = require_active_state-ok db a opened e in
        rw e
          (touch-IsWellFormed a (to_fenced now) db row (λ r. refl) (λ r. refl) found wf (rw state))
    | inr (error, e) ↦ rw e wf
  ]

  pub abort_recovery-IsWellFormed :
      (a now : String) → IsWellFormed platform (abort_recovery a now db).1
  unfolding abort_recovery
  abort_recovery-IsWellFormed a now =
      elim (Result-cases (require_active_state db a recovery_required)) [
        | inl (row, e) ↦
            let (active, found, state) = require_active_state-ok db a recovery_required e in
            rw e (
              retire-IsWellFormed a to_aborted (fail_pending a now db) row (λ r. refl) (λ r. refl)
                found (fail_pending-IsWellFormed a now) active refl)
        | inr (error, e) ↦ rw e wf
      ]

  -- The active attempt is live.
  pub active-live :
      (a : String) {row : Attempt}
      → is_active db.active_attempt_id a ≡ true
      → find_attempt a db ≡ some row
      → is_live row.state ≡ true
  active-live a active found = let old = rw found at (wf.at a) in sym old.0 ∙ active

  recover_row-IsWellFormed :
      (a : String) (row : Attempt) (state : AttemptState)
      → row.state ≡ state
      → is_live state ≡ true
      → find_attempt a db ≡ some row
      → IsWellFormed platform (settle db (recover_row a (some row) db)).1
  unfolding recover_row
  recover_row-IsWellFormed a row prepared e live found =
      rw (e, recover_row)
        (touch-IsWellFormed a to_recovery db row (λ r. refl) (λ r. refl) found wf (rw e))
  recover_row-IsWellFormed a row opened e live found =
      rw (e, recover_row)
        (touch-IsWellFormed a to_recovery db row (λ r. refl) (λ r. refl) found wf (rw e))
  recover_row-IsWellFormed a row fenced e live found =
      rw (e, recover_row)
        (touch-IsWellFormed a to_recovery db row (λ r. refl) (λ r. refl) found wf (rw e))
  recover_row-IsWellFormed a row recovery_required e live found = rw (e, recover_row) wf
  recover_row-IsWellFormed a row finalized e live found = cc
  recover_row-IsWellFormed a row aborted e live found = cc

  recover-IsWellFormed :
      (a : String)
      → is_active db.active_attempt_id a ≡ true
      → IsWellFormed platform (settle db (recover_row a (find_attempt a db) db)).1
  unfolding recover_row
  recover-IsWellFormed a active = elim (Option-cases (find_attempt a db)) [
    | inl e ↦ rw (e, recover_row) wf
    | inr (row, e) ↦
        rw (e, recover_row)
          (recover_row-IsWellFormed a row row.state refl (active-live a active e) e)
  ]

  recover_from :
      (active : Option String)
      → db.active_attempt_id ≡ active
      → IsWellFormed platform (settle db (recover active db)).1
  unfolding recover
  recover_from none e = wf
  recover_from (some a) e = recover-IsWellFormed a (rw e (eq_refl a))

  pub bootstrap-IsWellFormed : IsWellFormed platform (bootstrap db).1
  unfolding bootstrap
  bootstrap-IsWellFormed = recover_from db.active_attempt_id refl
