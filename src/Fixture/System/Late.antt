-- ===== src/Fixture/System/Late.antt =====
-- What a late `business_write` of assurance/phase2/fixture/store.py does to the end of its attempt.
use mcp_behaviour_guard.Prelude.{some, [], ◌∷◌, ◌++◌}
use mcp_behaviour_guard.Fixture.Schema.{Attempt, Database, Request, rejected}
use mcp_behaviour_guard.Fixture.Write.{WriteCall, new_request, state_name}

-- The request that a rejected write stores.
abbrev pub rejected_request : WriteCall → Attempt → Request
rejected_request call row =
    new_request call row.attempt_id rejected (some call.now) (some (state_name row.state))

abbrev pub with_request : Request → Database → Database
with_request new db = record db { requests = db.requests ++ new ∷ [] }
