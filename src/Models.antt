-- ===== src/Models.antt =====
-- The declarations of src/mcp_behaviour_guard/models.py that the engine reads: a validated contract,
-- an invocation record, a finding and the summary of a run. A dictionary is the list of its entries
-- in order, each key once. A finding keeps what decides: its title, expectation, observation text,
-- evidence and remediation are prose for the report.
pub mod Agree
pub mod References
pub mod Accepted
pub mod Tests
use mcp_behaviour_guard.Prelude.{
  ℕ, String, Bool, true, false, ◌||◌, Option, none, some, List, [], ◌∷◌, any, length, ◌==◌,
  if◌then◌else◌,
}
use mcp_behaviour_guard.Prelude.Table.{fetch_all}
use mcp_behaviour_guard.Json.{Json, Fields}
use mcp_behaviour_guard.SavedRun.Finding.{
  Status, passed, failed, error, skipped, Severity, Observation,
}
use mcp_behaviour_guard.SavedRun.Conformance.{
  Verdict, fail, inconclusive, not_tested, pass, same_status,
}

pub data AuthorizationStatus : Type 0 where
  allow deny unknown not_applicable : AuthorizationStatus

-- The last is the source's UNKNOWN.
pub data ExecutionStatus : Type 0 where
  succeeded rejected execution_failed timeout not_attempted unknown_execution : ExecutionStatus

pub data SideEffectKind : Type 0 where
  network_request filesystem_write database_write : SideEffectKind
  process_execution message_dispatch credential_access : SideEffectKind

abbrev pub same_kind : SideEffectKind → SideEffectKind → Bool
same_kind network_request network_request = true
same_kind filesystem_write filesystem_write = true
same_kind database_write database_write = true
same_kind process_execution process_execution = true
same_kind message_dispatch message_dispatch = true
same_kind credential_access credential_access = true
same_kind _ _ = false

-- kind in kinds
abbrev pub has_kind : List SideEffectKind → SideEffectKind → Bool
has_kind kinds kind = any (same_kind kind) kinds

-- d.get(key)
abbrev pub lookup {ℓ} : {A : Type ℓ} → String → List (String × A) → Option A
lookup key [] = none
lookup key ((k, v) ∷ rest) = if k == key then some v else lookup key rest

abbrev pub names_of {ℓ} : {A : Type ℓ} → List (String × A) → List String
names_of [] = []
names_of ((k, v) ∷ rest) = k ∷ names_of rest

pub record IdentitySpec : Type 0 where
  pub headers : List (String × String)
  pub environment : List (String × String)
  pub tenant : Option String
  pub role : Option String
  pub description : Option String

pub record TenantProbe : Type 0 where
  pub arguments : Fields
  pub resource_tenant_path : String
  pub expected_tenant : Option String
  pub require_denial : Bool
  pub confidentiality : Option (List String)

pub record ReplayProbe : Type 0 where
  pub arguments : Fields
  pub attempts : ℕ
  pub event_kind : SideEffectKind
  pub event_tool : Option String
  pub maximum_events : ℕ
  pub minimum_events : ℕ

pub data PolicyCheck : Type 0 where
  denied_check : PolicyCheck
  path_within : (response_path : String) (roots : List String) → PolicyCheck
  response_not_contains_env : (env_names : List String) → PolicyCheck
  response_not_contains : (values : List String) → PolicyCheck

pub record PolicyProbe : Type 0 where
  pub id : String
  pub identity : String
  pub arguments : Fields
  pub checks : List PolicyCheck
  pub severity : Severity

pub record ToolContract : Type 0 where
  pub permitted_identities : List String
  pub probe_arguments : Fields
  pub denial_error_markers : List String
  pub side_effect_identity : Option String
  pub read_only : Bool
  pub allowed_network_destinations : Option (List String)
  pub allowed_filesystem_writes : Option (List String)
  pub allowed_process_commands : Option (List String)
  pub forbidden_side_effects : List SideEffectKind
  pub tenant_probes : List (String × TenantProbe)
  pub policy_probes : List PolicyProbe
  pub replay_probe : Option ReplayProbe

pub record ToolCallSpec : Type 0 where
  pub tool : String
  pub arguments : Fields

pub record SessionIsolationTest : Type 0 where
  pub id : String
  pub writer_identity : String
  pub reader_identity : String
  pub write : ToolCallSpec
  pub read : ToolCallSpec
  pub marker_argument : String
  pub severity : Severity

pub record SafetySpec : Type 0 where
  pub destructive_tests : Bool
  pub require_lab_mode : Bool

pub record TemporalIntegritySpec : Type 0 where
  pub enabled : Bool
  pub identity : Option String
  pub driver_tool : Option String
  pub driver_arguments : Fields
  pub sessions : ℕ
  pub retests_per_session : ℕ
  pub rediscover_after_each_call : Bool
  pub stop_on_first_drift : Bool
  pub monitor_tools : Bool
  pub monitor_prompts : Bool
  pub monitor_resources : Bool
  pub severity : Severity

pub record Contract : Type 0 where
  pub server_environment : List (String × String)
  pub identities : List (String × IdentitySpec)
  pub tools : List (String × ToolContract)
  pub session_tests : List SessionIsolationTest
  pub safety : SafetySpec
  pub temporal_integrity : TemporalIntegritySpec

-- `allowed` is True, False or None.
pub record InvocationRecord : Type 0 where
  pub test_id : String
  pub tool : String
  pub identity : String
  pub arguments : Fields
  pub allowed : Option Bool
  pub authorization : AuthorizationStatus
  pub execution : ExecutionStatus
  pub response : Json
  pub error : Option String
  pub session_id : Option String

pub record Finding : Type 0 where
  pub test_id : String
  pub category : String
  pub status : Status
  pub severity : Severity
  pub observation : Observation

-- any(item.status == status for item in self.findings)
abbrev pub any_status : Status → List Finding → Bool
any_status status = any λ f. same_status status f.status

-- RunSummary.assessment
unfoldable pub assessment : List Finding → Verdict
assessment findings =
    if any_status failed findings
    then fail
    else if any_status error findings
    then inconclusive
    else if any_status skipped findings
    then not_tested
    else if any_status passed findings
    then pass
    else not_tested

-- RunSummary.failed and RunSummary.passed
unfoldable pub failed_count : List Finding → ℕ
unfolding fetch_all
failed_count findings =
    length (fetch_all (λ f. same_status failed f.status || same_status error f.status) findings)

unfoldable pub passed_count : List Finding → ℕ
unfolding fetch_all
passed_count findings = length (fetch_all (λ f. same_status passed f.status) findings)
