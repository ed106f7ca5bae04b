-- ===== src/Fixture/System/Finalize.antt =====
-- The end of an attempt, `final_snapshot` and `finalize_attempt` of
-- assurance/phase2/fixture/store.py, on a well-formed database.
use mcp_behaviour_guard.Fixture.Observe.{render, observer_event, with_details}
use mcp_behaviour_guard.Json.{Json, object}
use mcp_behaviour_guard.Prelude.{
  String, ◌≡◌, refl, true, some, eq_refl, arith, length, ap, eqb_refl, Option, ℕ, Bool, List, false,
  ◌&&◌, all, ◌∷◌, ◌∙◌, [], none,
}
use mcp_behaviour_guard.Fixture.Schema.{
  Attempt, Database, Platform, ok, AttemptState, fenced, settle_ok, require_ok,
  invalid_attempt_state, drain_incomplete, AuditEvent, Result, ◌>>=◌, err,
}
use mcp_behaviour_guard.Fixture.Invariant.{IsWellFormed}
use mcp_behaviour_guard.Fixture.Query.{
  find_attempt, ordered_events_of, require_active_state, events_of, require_state, is_active,
  ordered_requests_of, requests_of, request_before,
}
use mcp_behaviour_guard.Fixture.Ledger.{validate_ledger, zero_hash}
use mcp_behaviour_guard.Fixture.Ledger.Chain.{order_by-check_rows}
use mcp_behaviour_guard.Fixture.Final.{
  final_snapshot, finalize_attempt, to_complete, is_count, describe, described,
}
use mcp_behaviour_guard.Fixture.Invariant.Finish.{snapshot_rows, completed, ended}
use mcp_behaviour_guard.Fixture.Invariant.Touch.{touch-IsWellFormed}
use mcp_behaviour_guard.Fixture.Query.Rows.{find_attempt-update_attempt}
use mcp_behaviour_guard.Fixture.Invariant.Lifecycle.{requests_ended}
use mcp_behaviour_guard.Prelude.Table.{length-order_by}

is_count_holds : (stored : Option ℕ) (n : ℕ) → stored ≡ some n → is_count stored n ≡ true
is_count_holds stored n e = rw e (eqb_refl n)

module _ {platform : Platform} {db : Database} (wf : IsWellFormed platform db) (a : String)
    (row : Attempt) (found : find_attempt a db ≡ some row) where
  -- The rows of the ledger stand in order in the table.
  pub ordered-events_of : ordered_events_of a db ≡ events_of a db
  ordered-events_of =
      let old = rw found at (wf.at a) in
      order_by-check_rows platform 1 zero_hash (events_of a db) old.2

  pub validate_ledger_holds : validate_ledger platform row (ordered_events_of a db) ≡ ok tt
  unfolding validate_ledger
  validate_ledger_holds =
      let old = rw found at (wf.at a) in rw (ordered-events_of, old.1) (rw (old.2) (ground arith))

  pub guard_holds :
      (state : AttemptState)
      → is_active db.active_attempt_id a ≡ true
      → row.state ≡ state
      → require_active_state db a state ≡ ok row
  unfolding require_active_state require_state
  guard_holds state active e = rw (active, found, require_state, e) (ground arith)

  -- `finalize_attempt` succeeds once the row has been completed and nothing came after.
  pub finalize_attempt_succeeds :
      (now : String)
      → is_active db.active_attempt_id a ≡ true
      → row.state ≡ fenced
      → row.audit_complete ≡ true
      → row.final_request_count ≡ some (length (requests_of a db))
      → row.final_watermark ≡ some row.audit_watermark
      → finalize_attempt platform a now db ≡ (ok tt, ended a now db)
  unfolding finalize_attempt
  finalize_attempt_succeeds now active state complete count mark =
      settle_ok db _ _ row (guard_holds fenced active state) (
        settle_ok db _ _ tt (require_ok invalid_attempt_state complete) (
          settle_ok db _ _ tt (require_ok drain_incomplete (requests_ended wf a)) (
            settle_ok db _ _ tt
              (require_ok invalid_attempt_state (is_count_holds row.final_request_count _ count))
              (settle_ok db _ _ tt
                (require_ok invalid_attempt_state (is_count_holds row.final_watermark _ mark))
                (settle_ok db _ _ tt validate_ledger_holds refl)))))

-- Whether the details of a row of the ledger are the text of an object.
abbrev pub is_object : Option Json → Bool
is_object (some (object fields)) = true
is_object _ = false

abbrev pub is_readable : Platform → AuditEvent → Bool
is_readable platform row = is_object (platform.loads row.details_json)

abbrev pub is_ok {ℓ} : {A : Type ℓ} → Result A → Bool
is_ok (ok a) = true
is_ok (err e) = false

with_details-is_ok :
    (row : AuditEvent) (details : Option Json)
    → is_ok (with_details row details) ≡ is_object details
unfolding with_details
with_details-is_ok row none = refl
with_details-is_ok row (some (object fields)) = refl
with_details-is_ok row (some v) = ground arith

is_ok-both :
    {A B C : Type 0} (first : Result A) (second : Result B) (f : A → B → C)
    → is_ok (do x ← first; y ← second; ok (f x y)) ≡ (is_ok first && is_ok second)
is_ok-both (err e) second f = refl
is_ok-both (ok x) (err e) f = refl
is_ok-both (ok x) (ok y) f = refl

is_ok-map :
    {A B : Type 0} (first : Result A) (f : A → B) → is_ok (first >>= λ x. ok (f x)) ≡ is_ok first
is_ok-map (err e) f = refl
is_ok-map (ok x) f = refl

render-is_ok :
    (platform : Platform) (rows : List AuditEvent)
    → is_ok (render platform rows) ≡ all (is_readable platform) rows
unfolding render observer_event
render-is_ok platform [] = refl
render-is_ok platform (row ∷ rows) =
    let here = with_details-is_ok row (platform.loads row.details_json) in
    is_ok-both (with_details row (platform.loads row.details_json)) (render platform rows)
      (λ event events. event ∷ events)
    ∙ rw (here, render-is_ok platform rows)

-- On a well-formed database whose active attempt is fenced, `final_snapshot` stores its watermark
-- and the number of its requests, whatever the ledger's details say. It returns the whole ledger,
-- rendered row by row in order, exactly when the details of every row are the text of an object,
-- and raises otherwise, after the commit. Either way `finalize_attempt` on what it leaves succeeds,
-- ends the attempt and leaves none active.
pub final_snapshot_then_finalize :
    {platform : Platform} {db : Database} (a now : String) (row : Attempt)
    → IsWellFormed platform db
    → find_attempt a db ≡ some row
    → is_active db.active_attempt_id a ≡ true
    → row.state ≡ fenced
    → let taken = final_snapshot platform a db in
      let rendered = render platform (events_of a db) in
      (taken.1 ≡ completed a row db)
      × (taken.0 ≡ (rendered >>= λ events. ok (describe a (snapshot_rows a row db) events)))
      × (is_ok taken.0 ≡ all (is_readable platform) (events_of a db))
      × (finalize_attempt platform a now taken.1 ≡ (ok tt, ended a now (completed a row db)))
unfolding final_snapshot finalize_attempt
final_snapshot_then_finalize {platform} {db} a now row wf found active state =
    let count = length (ordered_requests_of a db) in
    let change = to_complete row.audit_watermark count in
    let after : IsWellFormed platform (completed a row db) =
      touch-IsWellFormed a change db row (λ r. refl) (λ r. refl) found wf (rw state) in
    let found' : find_attempt a (completed a row db) ≡ some (change row) =
      rw (find_attempt-update_attempt a a change db (λ r. refl), found, eq_refl a) in
    let taken = final_snapshot platform a db in
    let whole : taken ≡ described platform a (ok (snapshot_rows a row db), completed a row db) =
      rw (guard_holds wf a row found fenced active state, requests_ended wf a)
        (rw (validate_ledger_holds wf a row found)) in
    let result : taken.0 ≡ (
        render platform (events_of a db) >>= λ events.
        ok (describe a (snapshot_rows a row db) events)) =
      ap (λ o. o.0) whole ∙ rw (ordered-events_of wf a row found) in
    (
      ap (λ o. o.1) whole,
      result,
      rw result (
          is_ok-map (render platform (events_of a db)) (describe a (snapshot_rows a row db))
          ∙ render-is_ok platform (events_of a db)),
      ap (λ o. (finalize_attempt platform a now o.1)) whole
          ∙ finalize_attempt_succeeds after a (change row) found' now active state refl
              (ap some (length-order_by request_before (requests_of a db))) refl,
    )
