-- ===== src/Fixture/System.antt =====
-- The fixture of assurance/phase2/fixture/store.py as a transition system: one step for each method
-- that writes, whatever its arguments, its drawn identifiers and its outcome.
pub mod Atomic
pub mod Finalize
pub mod Late
pub mod Once
pub mod Used
use mcp_behaviour_guard.Prelude.{String, Option, refl}
use mcp_behaviour_guard.Fixture.Schema.{Database, Platform, new_database}
use mcp_behaviour_guard.Fixture.Lifecycle.{
  bootstrap, create_attempt, open_attempt, close_attempt, abort_recovery,
}
use mcp_behaviour_guard.Fixture.Invariant.{IsWellFormed}
use mcp_behaviour_guard.Prelude.Table.{fetch_one, fetch_all}
use mcp_behaviour_guard.Fixture.Invariant.Lifecycle.{
  bootstrap-IsWellFormed, open_attempt-IsWellFormed, close_attempt-IsWellFormed,
  abort_recovery-IsWellFormed,
}
use mcp_behaviour_guard.Fixture.Invariant.Create.{create_attempt-IsWellFormed}
use mcp_behaviour_guard.Fixture.Write.{WriteCall, business_write}
use mcp_behaviour_guard.Fixture.Invariant.Write.{business_write-IsWellFormed}
use mcp_behaviour_guard.Fixture.Observe.{reset_observer_cursor}
use mcp_behaviour_guard.Fixture.Invariant.Finish.{
  reset_observer_cursor-IsWellFormed, final_snapshot-IsWellFormed, finalize_attempt-IsWellFormed,
}
use mcp_behaviour_guard.Fixture.Final.{final_snapshot, finalize_attempt}

pub data Step (platform : Platform) (db : Database) : Database → Type 0 where
  restart : Step platform db (bootstrap db).1
  create :
      (given : Option String) (fresh token now : String)
      → Step platform db (create_attempt platform given fresh token now db).1
  open_step : (a now : String) → Step platform db (open_attempt a now db).1
  close_step : (a now : String) → Step platform db (close_attempt a now db).1
  abort_step : (a now : String) → Step platform db (abort_recovery a now db).1
  write : (call : WriteCall) → Step platform db (business_write platform call db).1
  reset_step : Step platform db (reset_observer_cursor db).1
  snapshot_step : (a : String) → Step platform db (final_snapshot platform a db).1
  finalize_step : (a now : String) → Step platform db (finalize_attempt platform a now db).1

-- Any sequence of calls, successful or not, with restarts between them.
pub data Reach (platform : Platform) (start : Database) : Database → Type 0 where
  here : Reach platform start start
  next :
      {db after : Database}
      → Reach platform start db
      → Step platform db after
      → Reach platform start after

pub Step-IsWellFormed :
    {platform : Platform} {db after : Database}
    → Step platform db after
    → IsWellFormed platform db
    → IsWellFormed platform after
Step-IsWellFormed restart wf = bootstrap-IsWellFormed wf
Step-IsWellFormed (create given fresh token now) wf =
    create_attempt-IsWellFormed wf given fresh token now
Step-IsWellFormed (open_step a now) wf = open_attempt-IsWellFormed wf a now
Step-IsWellFormed (close_step a now) wf = close_attempt-IsWellFormed wf a now
Step-IsWellFormed (abort_step a now) wf = abort_recovery-IsWellFormed wf a now
Step-IsWellFormed (write call) wf = business_write-IsWellFormed wf call
Step-IsWellFormed reset_step wf = reset_observer_cursor-IsWellFormed wf
Step-IsWellFormed (snapshot_step a) wf = final_snapshot-IsWellFormed wf a
Step-IsWellFormed (finalize_step a now) wf = finalize_attempt-IsWellFormed wf a now

pub new_database-IsWellFormed : (platform : Platform) → IsWellFormed platform new_database
unfolding fetch_one fetch_all
new_database-IsWellFormed platform = record { unique = tt; at = λ a. (refl, refl, refl) }

-- Every database that any sequence of method calls and restarts makes from a new file is well
-- formed: no two attempts have the same identifier, an attempt is active exactly while it is live, its ledger is one
-- valid hash chain as long as its watermark, its requests have all ended, and as many of them were
-- committed as its ledger has rows.
pub Reach-IsWellFormed :
    {platform : Platform} {db : Database}
    → Reach platform new_database db
    → IsWellFormed platform db
Reach-IsWellFormed {platform} here = new_database-IsWellFormed platform
Reach-IsWellFormed (next path step) = Step-IsWellFormed step (Reach-IsWellFormed path)
