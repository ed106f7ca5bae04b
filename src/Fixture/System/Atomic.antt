-- ===== src/Fixture/System/Atomic.antt =====
-- `business_write` of assurance/phase2/fixture/store.py when its response is lost.
use mcp_behaviour_guard.Prelude.{◌≡◌, none, some, arith, if◌then◌else◌, Option, inl, inr, refl}
use mcp_behaviour_guard.Fixture.Schema.{
  Database, Platform, Result, err, settle, simulated_response_loss, ok, Result-cases, Outcome,
}
use mcp_behaviour_guard.Fixture.Write.{
  answer, business_write, respond, WriteCall, Fault, write_body, commit_write, WriteResult,
  response_loss, wait, before_transaction, after_barrier,
}

abbrev pub with_fault : Option Fault → WriteCall → WriteCall
with_fault fault call = record call { fault = fault }

-- What the caller sees of an outcome whose response is lost after a durable commit.
abbrev pub lose_response : Outcome WriteResult → Outcome WriteResult
lose_response (ok result, db) =
    (if result.committed_write then err simulated_response_loss else ok result, db)
lose_response (err e, db) = (err e, db)

same_answer :
    (call : WriteCall) (db : Database) (r : Result (WriteResult × Database))
    → answer (with_fault (some response_loss) call) (settle db r)
      ≡ lose_response (answer (with_fault none call) (settle db r))
unfolding answer respond
same_answer call db (ok (result, after)) = ground arith
same_answer call db (err e) = refl

-- A write whose response is lost stores what the same write stores when its response arrives. It
-- raises the loss exactly where that one returns a committed result, and is the same otherwise.
pub business_write_response_loss :
    (platform : Platform) (call : WriteCall) (db : Database)
    → business_write platform (with_fault (some response_loss) call) db
      ≡ lose_response (business_write platform (with_fault none call) db)
unfolding business_write write_body commit_write
business_write_response_loss platform call db =
    elim (Result-cases (wait call.barrier before_transaction)) [
      | inl (u, w) ↦
          rw (w, after_barrier)
            (same_answer call db (write_body platform (with_fault none call) db))
      | inr (x, w) ↦ rw (w, after_barrier)
    ]
