-- ===== src/Engine/Access.antt =====
-- `_check_inventory` and `_check_access_matrix` of src/mcp_behaviour_guard/engine.py, with
-- `_authorization_assessment`.
use mcp_behaviour_guard.Prelude.{
  String, Bool, true, false, not, ◌&&◌, Option, none, some, List, [], ◌∷◌, ◌++◌, contains, is_empty,
  if◌then◌else◌, ◌||◌,
}
use Prim.Native.String.{◌++◌ as ◌⧺◌}
use mcp_behaviour_guard.Prelude.Table.{fetch_all}
use mcp_behaviour_guard.Engine.State.{
  ◌>>◌, GuardEngine, Guard, ◌>>=◌, change, each, read, return, add_finding,
}
use mcp_behaviour_guard.Models.{
  AuthorizationStatus, allow, deny, unknown, not_applicable, IdentitySpec, Finding, ToolContract,
  names_of,
}
use mcp_behaviour_guard.SavedRun.Finding.{
  Status, Observation, passed, Severity, error, failed, info, critical, medium, high, not_required,
}
use mcp_behaviour_guard.SavedRun.Inventory.{difference}
use mcp_behaviour_guard.Json.{Fields}
use mcp_behaviour_guard.Engine.Invoke.{
  ObservedCall, invoke_with_mutation_observation, tool_invocation_enabled, is_sufficient, lab_skip,
}
use mcp_behaviour_guard.SavedRun.Value.{as_text, get}
use mcp_behaviour_guard.SavedRun.Conformance.{same_status}

unfoldable pub authorization_assessment : AuthorizationStatus → Bool → Bool → Status
authorization_assessment allow true positive_control = passed
authorization_assessment deny true positive_control = failed
authorization_assessment unknown true positive_control = error
authorization_assessment not_applicable true positive_control = error
authorization_assessment allow false positive_control = failed
authorization_assessment deny false positive_control = if positive_control then passed else error
authorization_assessment unknown false positive_control = error
authorization_assessment not_applicable false positive_control = error

-- An insufficient observation lets no verdict stand but a failure.
unfoldable pub with_observation : Observation → Status → Status
with_observation observation status =
    if is_sufficient observation || same_status failed status then status else error

abbrev pub is_allow : AuthorizationStatus → Bool
is_allow allow = true
is_allow _ = false

abbrev pub is_true : Option Bool → Bool
is_true (some true) = true
is_true _ = false

unfoldable pub access_severity : Status → Option Bool → Bool → Severity
access_severity passed allowed expected_allowed = info
access_severity error allowed expected_allowed =
    if is_true allowed && not expected_allowed then critical else medium
access_severity _ allowed expected_allowed =
    if is_true allowed && not expected_allowed then critical else high

-- sorted with a Boolean key: the permitted identities first, each part in the contract's order.
unfoldable pub permitted_first :
    List String → List (String × IdentitySpec) → List (String × IdentitySpec)
unfolding fetch_all
permitted_first permitted identities =
    fetch_all (λ e. contains permitted e.0) identities
    ++ fetch_all (λ e. not (contains permitted e.0)) identities

-- The names of the discovered tools, and the finding on them.
unfoldable pub inventory_status : Bool → List String → List String → Status
unfolding difference
inventory_status discovery_ok expected actual =
    if not discovery_ok
    then error
    else if is_empty (difference expected actual) && is_empty (difference actual expected)
    then passed
    else failed

unfoldable pub tool_names : List Fields → List String
tool_names [] = []
tool_names (item ∷ items) = elim (as_text (get "name" item)) [
  | none ↦ tool_names items
  | some name ↦ name ∷ tool_names items
]

unfoldable pub access_finding : String → Bool → Bool → ObservedCall → Finding
unfolding authorization_assessment with_observation access_severity
access_finding test_id expected_allowed positive seen =
    let invocation = seen.invocation in
    let status =
      with_observation seen.observation
        (authorization_assessment invocation.authorization expected_allowed positive) in
    record {
      test_id = test_id;
      category = "authorization";
      status = status;
      severity = access_severity status invocation.allowed expected_allowed;
      observation = seen.observation;
    }

module _ {World : Type 0} (guard : GuardEngine World) where
  unfoldable pub check_inventory : List Fields → Guard World Unit
  unfolding inventory_status tool_names
  check_inventory discovered = do
    discovery_ok ← read (λ s. s.discovery_ok)
    let status =
        inventory_status discovery_ok (names_of guard.contract.tools) (tool_names discovered)
    add_finding (record {
      test_id = "INVENTORY-001";
      category = "capability_drift";
      status = status;
      severity = if same_status passed status then info else high;
      observation = not_required;
    })

  abbrev pub access_test_id : String → String → String
  access_test_id tool_name identity_name =
      guard.library.upper_dashed ("AUTH-" ⧺ (tool_name ⧺ ("-" ⧺ identity_name)))

  -- A permitted identity that was allowed is a positive control.
  unfoldable pub note_positive : Bool → String → String → Guard World Unit
  note_positive control tool_name identity_name =
      if control
      then change (λ s. record s {
        identity_positive_controls =
            s.identity_positive_controls ++ (tool_name, identity_name) ∷ [];
      })
      else return tt

  -- The loop over the identities of one tool; the result is whether one was a positive control.
  unfoldable pub check_identities :
      String → ToolContract → List (String × IdentitySpec) → Bool → Guard World Bool
  unfolding invoke_with_mutation_observation note_positive access_finding
  check_identities tool_name tool [] positive = return positive
  check_identities tool_name tool ((identity_name, identity) ∷ rest) positive =
      let test_id = access_test_id tool_name identity_name in
      let expected_allowed = contains tool.permitted_identities identity_name in
      do
        seen ←
            invoke_with_mutation_observation guard test_id identity_name tool_name
              tool.probe_arguments
        let control = expected_allowed && is_allow seen.invocation.authorization
        note_positive control tool_name identity_name
        add_finding (access_finding test_id expected_allowed (positive || control) seen)
        check_identities tool_name tool rest (positive || control)

  unfoldable pub skip_identities : String → List (String × IdentitySpec) → Guard World Unit
  skip_identities tool_name [] = return tt
  skip_identities tool_name ((identity_name, identity) ∷ rest) = do
    add_finding (lab_skip (access_test_id tool_name identity_name) "authorization")
    skip_identities tool_name rest

  unfoldable pub check_tool_access : String → ToolContract → Guard World Unit
  unfolding skip_identities check_identities permitted_first tool_invocation_enabled
  check_tool_access tool_name tool =
      if not (tool_invocation_enabled guard tool)
      then skip_identities tool_name guard.contract.identities
      else (check_identities tool_name tool
            (permitted_first tool.permitted_identities guard.contract.identities) false
          >>= λ positive. change (λ s. record s {
            positive_controls = s.positive_controls ++ (tool_name, positive) ∷ [];
          }))

  unfoldable pub check_access_matrix : Guard World Unit
  unfolding each check_tool_access
  check_access_matrix = each (λ t. check_tool_access t.0 t.1) guard.contract.tools
