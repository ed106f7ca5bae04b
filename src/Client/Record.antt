-- ===== src/Client/Record.antt =====
-- What the record of a call says, for every exchange, beside `McpClient.invoke` of
-- src/mcp_behaviour_guard/client.py.
use mcp_behaviour_guard.Prelude.{Option, String, ◌≡◌, refl, ◌&&◌, Bool, false, not}
use mcp_behaviour_guard.Client.{
  SessionReply, session_problem, session_response, invoke_on_session, Folding, ClientCall, Exchange,
  invoke, no_session, call_failed, answered, close_failed, matches_denial_marker,
  normalise_tool_result,
}

-- A call names the tool and the identity that it was made for.
pub invoke-tool :
    (folding : Folding) (call : ClientCall) (exchange : Exchange)
    → ((invoke folding call exchange).tool ≡ call.tool)
      × ((invoke folding call exchange).identity ≡ call.identity_name)
unfolding invoke
invoke-tool folding call (no_session problem) = (refl, refl)
invoke-tool folding call (call_failed session_id problem) = (refl, refl)
invoke-tool folding call (answered session_id response) = (refl, refl)
invoke-tool folding call (close_failed problem) = (refl, refl)

-- The same of a call on a session that is open.
pub invoke_on_session-tool :
    (folding : Folding) (call : ClientCall) (session_id : Option String) (reply : SessionReply)
    → (invoke_on_session folding call session_id reply).tool ≡ call.tool
unfolding invoke_on_session
invoke_on_session-tool folding call session_id (session_problem problem) = refl
invoke_on_session-tool folding call session_id (session_response response) = refl

-- The answer that denies, on a session that closes: an error that carries one of the tool's denial
-- markers.
abbrev pub is_denial : Folding → ClientCall → Exchange → Bool
is_denial folding call (answered session_id response) =
    response.is_error
    && matches_denial_marker folding (normalise_tool_result response) call.denial_error_markers
is_denial folding call _ = false

abbrev pub is_success : Exchange → Bool
is_success (answered session_id response) = not response.is_error
is_success _ = false
