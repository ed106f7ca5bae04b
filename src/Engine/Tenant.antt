-- ===== src/Engine/Tenant.antt =====
-- `_check_tenant_isolation` of src/mcp_behaviour_guard/engine.py, with `match_count` and
-- `_string_leaves` of src/mcp_behaviour_guard/models.py.
use mcp_behaviour_guard.Prelude.{
  ℕ, String, Bool, true, false, not, ◌&&◌, ◌||◌, Option, none, some, List, [], ◌∷◌, ◌++◌, any, ◌==◌,
  length, if◌then◌else◌, eqb,
}
use mcp_behaviour_guard.Prelude.Table.{fetch_all}
use Prim.Native.String.{◌++◌ as ◌⧺◌}
use mcp_behaviour_guard.Json.{Json, text, array, object, Items, nil, cons, Fields, end, field}
use mcp_behaviour_guard.Engine.State.{
  ◌>>=◌, GuardEngine, Guard, each, return, item_or_throw, add_finding, throw, EngineError, read,
}
use mcp_behaviour_guard.Client.{occurs_in}
use mcp_behaviour_guard.SavedRun.Finding.{
  Status, failed, Severity, error, critical, Observation, passed, medium, info,
}
use mcp_behaviour_guard.Engine.Access.{authorization_assessment, with_observation, is_true}
use mcp_behaviour_guard.Models.{
  ExecutionStatus, TenantProbe, AuthorizationStatus, IdentitySpec, InvocationRecord, ToolContract,
  lookup, succeeded,
}
use mcp_behaviour_guard.Util.{Found, found, get_path}
use mcp_behaviour_guard.Engine.Invoke.{
  invoke_with_mutation_observation, tool_invocation_enabled, lab_skip,
}
use mcp_behaviour_guard.SavedRun.Conformance.{same_status}
use mcp_behaviour_guard.SavedRun.Value.{is_null}
use mcp_behaviour_guard.Engine.Effects.{nonempty_name}

unfoldable mutual
  pub string_leaves : Json → List String
  string_leaves (text s) = s ∷ []
  string_leaves (object fs) = field_leaves fs
  string_leaves (array xs) = item_leaves xs
  string_leaves v = []

  pub item_leaves : Items → List String
  item_leaves nil = []
  item_leaves (cons x xs) = string_leaves x ++ item_leaves xs

  pub field_leaves : Fields → List String
  field_leaves end = []
  field_leaves (field key v rest) = string_leaves v ++ field_leaves rest

-- How many of the protected values occur in a leaf of the response.
unfoldable pub match_count : List String → Json → ℕ
unfolding fetch_all string_leaves
match_count values response =
    length (fetch_all (λ value. any (occurs_in value) (string_leaves response)) values)

-- What one of the three assertions says; `not_asserted` where the probe does not make it.
pub data Assertion : Type 0 where
  asserted : Status → Assertion
  not_asserted : Assertion

abbrev pub has_outcome : Status → Assertion → Bool
has_outcome status (asserted outcome) = same_status status outcome
has_outcome status not_asserted = false

abbrev pub is_text : String → Json → Bool
is_text s (text t) = t == s
is_text s _ = false

-- observed_tenant against the expected tenant.
unfoldable pub tenant_outcome : Bool → Json → String → Status
tenant_outcome successful observed_tenant expected =
    if not successful || is_null observed_tenant
    then error
    else if is_text expected observed_tenant
    then passed
    else failed

-- Whether denial is required comes first, then whether a tenant is expected.
unfoldable pub authorization_assertion : Bool → AuthorizationStatus → Bool → Assertion
unfolding authorization_assessment
authorization_assertion true authorization positive_control =
    asserted (authorization_assessment authorization false positive_control)
authorization_assertion false authorization positive_control = not_asserted

unfoldable pub ownership_assertion : Bool → Option String → Bool → Json → Assertion
unfolding tenant_outcome
ownership_assertion true expected successful observed_tenant = not_asserted
ownership_assertion false none successful observed_tenant = not_asserted
ownership_assertion false (some expected) successful observed_tenant =
    asserted (tenant_outcome successful observed_tenant expected)

unfoldable pub confidentiality_assertion : Option (List String) → Json → Assertion
unfolding match_count
confidentiality_assertion none response = not_asserted
confidentiality_assertion (some values) response = asserted (
    if not (eqb (match_count values response) 0)
    then failed
    else if is_null response
    then error
    else passed)

unfoldable pub tenant_status : Bool → Bool → List Assertion → Status
tenant_status require_denial successful outcomes =
    if any (has_outcome failed) outcomes
    then failed
    else if any (has_outcome error) outcomes || not require_denial && not successful
    then error
    else passed

abbrev pub tenant_severity : Status → Severity
tenant_severity failed = critical
tenant_severity error = medium
tenant_severity _ = info

abbrev pub is_succeeded : ExecutionStatus → Bool
is_succeeded succeeded = true
is_succeeded _ = false

-- probe.expected_tenant or identity.tenant
abbrev pub expected_tenant : TenantProbe → IdentitySpec → Option String
expected_tenant probe identity = elim (nonempty_name probe.expected_tenant) [
  | none ↦ identity.tenant
  | some tenant ↦ some tenant
]

-- The verdict on a probe, from its record, the tenant that its response names, and whether the
-- identity was a positive control of the tool.
unfoldable pub tenant_verdict :
    TenantProbe → Option String → InvocationRecord → Json → Bool → Observation → Status
unfolding tenant_status authorization_assertion ownership_assertion confidentiality_assertion
    with_observation
tenant_verdict probe expected invocation observed_tenant positive_control observation =
    let successful = is_true invocation.allowed && is_succeeded invocation.execution in
    with_observation observation (
      tenant_status probe.require_denial successful (
        authorization_assertion probe.require_denial invocation.authorization positive_control
        ∷ ownership_assertion probe.require_denial expected successful observed_tenant
        ∷ confidentiality_assertion probe.confidentiality invocation.response
        ∷ []))

abbrev pub has_control : String → String → List (String × String) → Bool
has_control tool_name identity_name = any λ c. c.0 == tool_name && c.1 == identity_name

module _ {World : Type 0} where
  abbrev pub value_or_throw : Found → Guard World Json
  value_or_throw (found v) = return v
  value_or_throw Found.index_error = throw EngineError.index_error

  module _ (guard : GuardEngine World) where
    abbrev pub tenant_test_id : String → String → String
    tenant_test_id tool_name identity_name =
        guard.library.upper_dashed ("TENANT-" ⧺ (tool_name ⧺ ("-" ⧺ identity_name)))

    unfoldable pub check_tenant_probe : String → String → TenantProbe → Guard World Unit
    unfolding invoke_with_mutation_observation tenant_verdict get_path
    check_tenant_probe tool_name identity_name probe =
        let test_id = tenant_test_id tool_name identity_name in
        do
          identity ← item_or_throw (lookup identity_name guard.contract.identities)
          seen ←
              invoke_with_mutation_observation guard test_id identity_name tool_name probe.arguments
          observed_tenant ←
              value_or_throw (get_path seen.invocation.response probe.resource_tenant_path)
          positive_control ←
              read (λ s. has_control tool_name identity_name s.identity_positive_controls)
          let status =
              tenant_verdict probe (expected_tenant probe identity) seen.invocation observed_tenant
                positive_control seen.observation
          add_finding (record {
            test_id = test_id;
            category = "tenant_isolation";
            status = status;
            severity = tenant_severity status;
            observation = seen.observation;
          })

    unfoldable pub check_tool_tenants : String → ToolContract → Guard World Unit
    unfolding tool_invocation_enabled each check_tenant_probe
    check_tool_tenants tool_name tool =
        if not (tool_invocation_enabled guard tool)
        then each (λ p. add_finding (lab_skip (tenant_test_id tool_name p.0) "tenant_isolation"))
            tool.tenant_probes
        else each (λ p. check_tenant_probe tool_name p.0 p.1) tool.tenant_probes

    unfoldable pub check_tenant_isolation : Guard World Unit
    unfolding each check_tool_tenants
    check_tenant_isolation = each (λ t. check_tool_tenants t.0 t.1) guard.contract.tools
