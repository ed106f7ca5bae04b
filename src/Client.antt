-- ===== src/Client.antt =====
-- src/mcp_behaviour_guard/client.py: the record that `McpClient.invoke` makes of one call of a tool,
-- whatever the session, the call and the server do. What the MCP SDK hands back is an argument.
pub mod Record
pub mod Tests
use mcp_behaviour_guard.Prelude.{
  String, Bool, true, false, ◌&&◌, Option, none, some, List, [], ◌∷◌, any, if◌then◌else◌, ℕ,
}
use mcp_behaviour_guard.Json.{Json, null, array, Items, nil, cons, Fields}
use mcp_behaviour_guard.SavedRun.Value.{has_visible}
use mcp_behaviour_guard.Models.{
  InvocationRecord, allow, deny, unknown, ExecutionStatus, succeeded, rejected, execution_failed,
  timeout,
}
use text.Mathlib.Text.{find?}

-- An item of a tool's answer: its text and what `json.loads` makes of that, `none` where it raises
-- `JSONDecodeError`, or the dump of an item without text.
pub data ContentItem : Type 0 where
  text_item : String → Option Json → ContentItem
  other_item : Json → ContentItem

-- What the SDK returns of `call_tool`, with its dump.
pub record ToolResponse : Type 0 where
  pub is_error : Bool
  pub structured_content : Option Json
  pub content : List ContentItem
  pub dump : Json

-- An exception: whether it is one of the timeouts, and its text.
pub record Problem : Type 0 where
  pub is_timeout : Bool
  pub message : String

-- The session may not open, the call may raise in it, or it answers. Whatever came of the call, the
-- session may raise as it closes, and that exception is the one that is caught.
pub data Exchange : Type 0 where
  no_session : Problem → Exchange
  call_failed : Option String → Problem → Exchange
  answered : Option String → ToolResponse → Exchange
  close_failed : Problem → Exchange

-- A call on a session that is open.
pub data SessionReply : Type 0 where
  session_problem : Problem → SessionReply
  session_response : ToolResponse → SessionReply

-- `json.dumps(…, sort_keys=True, default=str)` and `casefold`.
pub record Folding : Type 0 where
  pub dumps : Json → String
  pub casefold : String → String

abbrev pub item_value : ContentItem → Json
item_value (text_item s (some v)) = v
item_value (text_item s none) = Json.text s
item_value (other_item v) = v

unfoldable pub item_values : List ContentItem → Items
item_values [] = nil
item_values (item ∷ items) = cons (item_value item) (item_values items)

-- values[0] if len(values) == 1 else values
abbrev pub one_or_all : Items → Json
one_or_all (cons v nil) = v
one_or_all values = array values

unfoldable pub content_value : Json → List ContentItem → Json
unfolding item_values
content_value dump [] = dump
content_value dump (item ∷ items) = one_or_all (item_values (item ∷ items))

unfoldable pub normalise_tool_result : ToolResponse → Json
unfolding content_value
normalise_tool_result response = elim response.structured_content [
  | some v ↦ v
  | none ↦ content_value response.dump response.content
]

-- needle in text
abbrev pub is_found : Option ℕ → Bool
is_found none = false
is_found (some n) = true

abbrev pub occurs_in : String → String → Bool
occurs_in needle haystack = is_found (find? haystack needle)

-- An empty list of markers matches nothing, as `any` of it does.
unfoldable pub matches_denial_marker : Folding → Json → List String → Bool
matches_denial_marker folding response markers =
    let haystack = folding.casefold (folding.dumps response) in
    any (λ marker. has_visible marker && occurs_in (folding.casefold marker) haystack) markers

abbrev pub exception_execution : Problem → ExecutionStatus
exception_execution problem = if problem.is_timeout then timeout else execution_failed

-- The arguments of one call.
pub record ClientCall : Type 0 where
  pub test_id : String
  pub tool : String
  pub identity_name : String
  pub arguments : Fields
  pub denial_error_markers : List String
  pub meta : Option Fields

unfoldable pub failed_record : ClientCall → Option String → Problem → InvocationRecord
failed_record call session_id problem = record {
  test_id = call.test_id;
  tool = call.tool;
  identity = call.identity_name;
  arguments = call.arguments;
  allowed = none;
  authorization = unknown;
  execution = exception_execution problem;
  response = null;
  error = some problem.message;
  session_id = session_id;
}

unfoldable pub answered_record :
    Folding → ClientCall → Option String → ToolResponse → InvocationRecord
unfolding normalise_tool_result matches_denial_marker
answered_record folding call session_id tool_response =
    let response = normalise_tool_result tool_response in
    let is_error = tool_response.is_error in
    let denied = is_error && matches_denial_marker folding response call.denial_error_markers in
    record {
      test_id = call.test_id;
      tool = call.tool;
      identity = call.identity_name;
      arguments = call.arguments;
      allowed = if denied then some false else if is_error then none else some true;
      authorization = if denied then deny else if is_error then unknown else allow;
      execution = if is_error then rejected else succeeded;
      response = response;
      error = if is_error then some "tool returned isError=true" else none;
      session_id = session_id;
    }

-- `invoke` with `invoke_on_session`.
unfoldable pub invoke : Folding → ClientCall → Exchange → InvocationRecord
unfolding failed_record answered_record
invoke folding call (no_session problem) = failed_record call none problem
invoke folding call (call_failed session_id problem) = failed_record call session_id problem
invoke folding call (answered session_id response) =
    answered_record folding call session_id response
invoke folding call (close_failed problem) = failed_record call none problem

-- `invoke_on_session`.
unfoldable pub invoke_on_session :
    Folding → ClientCall → Option String → SessionReply → InvocationRecord
unfolding failed_record answered_record
invoke_on_session folding call session_id (session_problem problem) =
    failed_record call session_id problem
invoke_on_session folding call session_id (session_response response) =
    answered_record folding call session_id response
