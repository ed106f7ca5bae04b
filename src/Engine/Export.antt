-- ===== src/Engine/Export.antt =====
-- What src/mcp_behaviour_guard/engine.py puts into the records that leave the process.
use mcp_behaviour_guard.Prelude.{String, ◌≡◌, refl, Option}
use mcp_behaviour_guard.Json.{Json, Fields}
use mcp_behaviour_guard.Temporal.{keys}
use mcp_behaviour_guard.Models.{InvocationRecord}
use mcp_behaviour_guard.Engine.State.{GuardEngine}
use mcp_behaviour_guard.Engine.Recording.{exported_record}

-- An exported record does not depend on the response, on the session, or on the values of the
-- arguments: two records that differ in nothing but these, with the same names of arguments, are
-- exported as the same record.
pub exported_record-omits :
    {World : Type 0} (guard : GuardEngine World) (operation : Option String)
    (invocation : InvocationRecord) (arguments : Fields) (response : Json)
    (session_id : Option String)
    → keys arguments ≡ keys invocation.arguments
    → exported_record guard operation
        (record invocation { arguments = arguments; response = response; session_id = session_id })
      ≡ exported_record guard operation invocation
unfolding exported_record
exported_record-omits guard operation invocation arguments response session_id h = rw h refl
