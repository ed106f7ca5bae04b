-- ===== src/Engine/Recording.antt =====
-- `_invoke` and `_record_invocation` of src/mcp_behaviour_guard/engine.py: one call, and the record
-- of it that is exported.
use mcp_behaviour_guard.Prelude.{
  String, Bool, Option, none, some, List, [], ◌∷◌, ◌++◌, if◌then◌else◌, map,
}
use mcp_behaviour_guard.Json.{text, array, Items, nil, cons, Fields, end, field}
use mcp_behaviour_guard.Engine.State.{◌>>=◌, ◌>>◌, GuardEngine, Guard, return, change, outside_call}
use mcp_behaviour_guard.SavedRun.Inventory.{sorted_names}
use mcp_behaviour_guard.Evidence.{Filters, redact_text}
use mcp_behaviour_guard.Models.{Contract, InvocationRecord, ToolContract, lookup}
use mcp_behaviour_guard.Correlation.{
  correlation_enabled, correlation_redaction_values, build_correlation_meta,
}
use mcp_behaviour_guard.Client.{invoke, ClientCall}
use mcp_behaviour_guard.Temporal.{keys}

unfoldable pub key_items : List String → Items
key_items [] = nil
key_items (key ∷ keys) = cons (text key) (key_items keys)

-- {"names": sorted(arguments), "values": "[omitted]"}
unfoldable pub exported_arguments : Fields → Fields
unfolding key_items sorted_names
exported_arguments arguments =
    field "names" (array (key_items (sorted_names (keys arguments))))
      (field "values" (text "[omitted]") end)

abbrev pub redact_option : Filters → List String → Option String → Option String
redact_option filters secrets none = none
redact_option filters secrets (some message) = some (redact_text filters secrets message)

module _ {World : Type 0} (guard : GuardEngine World) where
  abbrev pub contract : Contract
  contract = guard.contract

  abbrev pub correlates : Bool
  correlates = correlation_enabled (map (λ h. h.observer) guard.observers)

  -- `operation` is the value of the context variable.
  abbrev pub export_secrets : Option String → List String
  export_secrets none = guard.secrets
  export_secrets (some operation_id) =
      if correlates
      then guard.secrets ++ correlation_redaction_values operation_id
      else guard.secrets

  unfoldable pub exported_record : Option String → InvocationRecord → InvocationRecord
  unfolding exported_arguments redact_text
  exported_record operation invocation = record invocation {
    arguments = exported_arguments invocation.arguments;
    response = text "[omitted from exported evidence]";
    error = redact_option guard.library.filters (export_secrets operation) invocation.error;
    session_id = none;
  }

  unfoldable pub record_invocation : Option String → InvocationRecord → Guard World Unit
  unfolding exported_record
  record_invocation operation invocation =
      change
        λ s. record s { invocations = s.invocations ++ exported_record operation invocation ∷ [] }

  abbrev pub markers_of : Option ToolContract → List String
  markers_of none = []
  markers_of (some tool) = tool.denial_error_markers

  abbrev pub meta_of : Option String → Option Fields
  meta_of none = none
  meta_of (some operation_id) =
      if correlates then some (build_correlation_meta guard.run_id operation_id) else none

  abbrev pub redact_record : Option String → InvocationRecord → InvocationRecord
  redact_record none invocation = invocation
  redact_record (some operation_id) invocation =
      if correlates
      then record invocation {
        error =
            redact_option guard.library.filters (export_secrets (some operation_id))
              invocation.error;
      }
      else invocation

  abbrev pub call_for : Option String → String → String → String → Fields → ClientCall
  call_for operation test_id identity_name tool arguments = record {
    test_id = test_id;
    tool = tool;
    identity_name = identity_name;
    arguments = arguments;
    denial_error_markers = markers_of (lookup tool contract.tools);
    meta = meta_of operation;
  }

  -- `_invoke`, with the context variable as an argument.
  unfoldable pub invoke_tool :
      Option String → String → String → String → Fields → Guard World InvocationRecord
  unfolding record_invocation invoke correlation_enabled build_correlation_meta
  invoke_tool operation test_id identity_name tool arguments =
      let call = call_for operation test_id identity_name tool arguments in
      do
        exchange ← outside_call (guard.outside.exchange call)
        let invocation = redact_record operation (invoke guard.library.folding call exchange)
        record_invocation operation invocation
        return invocation
