-- ===== src/Engine/Policy.antt =====
-- `_check_policy_probes` and `_path_is_within` of src/mcp_behaviour_guard/engine.py.
use mcp_behaviour_guard.Prelude.{
  String, Bool, true, false, not, ◌&&◌, ◌||◌, Option, none, some, List, [], ◌∷◌, any, ◌==◌,
  if◌then◌else◌,
}
use mcp_behaviour_guard.Json.{Json, text}
use mcp_behaviour_guard.Engine.State.{
  ◌>>=◌, GuardEngine, Guard, Library, Raised, each, done, raise, throw, add_finding, return,
  item_or_throw, read, EngineError,
}
use mcp_behaviour_guard.Client.{occurs_in}
use mcp_behaviour_guard.Util.{Found}
use mcp_behaviour_guard.Engine.Effects.{nonempty_name}
use mcp_behaviour_guard.Util.{get_path, found}
use mcp_behaviour_guard.Models.{
  InvocationRecord, PolicyCheck, AuthorizationStatus, lookup, ToolContract, PolicyProbe,
  response_not_contains_env, response_not_contains, path_within, denied_check, deny,
}
use mcp_behaviour_guard.Engine.Access.{with_observation, is_true}
use mcp_behaviour_guard.SavedRun.Finding.{
  Status, Observation, Severity, failed, medium, passed, info, error,
}
use mcp_behaviour_guard.Engine.Invoke.{
  invoke_with_mutation_observation, tool_invocation_enabled, lab_skip,
}
use mcp_behaviour_guard.Evidence.{merged}
use mcp_behaviour_guard.Engine.Tenant.{has_control}

-- candidate.relative_to(root), of the parts of two resolved paths.
unfoldable pub is_under : List String → List String → Bool
is_under candidate [] = true
is_under [] (part ∷ root) = false
is_under (p ∷ candidate) (part ∷ root) = p == part && is_under candidate root

-- One root: one that cannot be resolved raises, and one that holds the candidate ends the loop.
abbrev pub under_root : Option (List String) → List String → Raised Bool → Raised Bool
under_root none candidate rest = raise EngineError.resolve_error
under_root (some root) candidate rest = if is_under candidate root then done true else rest

unfoldable pub within_roots : Library → List String → List String → Raised Bool
within_roots library candidate [] = done false
within_roots library candidate (root ∷ roots) =
    under_root (library.resolve_root root) candidate (within_roots library candidate roots)

abbrev pub resolved_within : Library → Option (List String) → List String → Raised Bool
resolved_within library none roots = done false
resolved_within library (some candidate) roots = within_roots library candidate roots

-- A value that is no text, or empty, or cannot be resolved, is within no root.
unfoldable pub path_is_within : Library → Json → List String → Raised Bool
unfolding is_under within_roots
path_is_within library (text s) roots =
    if s == "" then done false else resolved_within library (library.resolve s) roots
path_is_within library _ roots = done false

-- not of a test that may raise
abbrev pub not_raised : Raised Bool → Raised Bool
not_raised (raise e) = raise e
not_raised (done b) = done (not b)

-- configured_environment.get(name) or os.getenv(name, ""): an empty value counts as missing.
abbrev pub environment_value : Library → List (String × String) → String → String
environment_value library environment name = elim (nonempty_name (lookup name environment)) [
  | none ↦ library.getenv name
  | some value ↦ value
]

-- `value and value in response_text`
abbrev pub leaks : String → String → Bool
leaks response_text value = not (value == "") && occurs_in value response_text

-- One check against the record of the probe's call. The response path is walked only where the call
-- was allowed; `environment` is the server's with the identity's over it.
unfoldable pub check_violated :
    Library → List (String × String) → InvocationRecord → PolicyCheck → Raised Bool
unfolding get_path path_is_within
check_violated library environment invocation denied_check = done (is_true invocation.allowed)
check_violated library environment invocation (response_not_contains_env names) = done (
    any
      (λ name.
        leaks (library.json_text invocation.response) (environment_value library environment name))
      names)
check_violated library environment invocation (response_not_contains values) =
    done (any (leaks (library.json_text invocation.response)) values)
check_violated library environment invocation (path_within response_path roots) =
    if is_true invocation.allowed
    then elim (get_path invocation.response response_path) [
      | found raw_path ↦ not_raised (path_is_within library raw_path roots)
      | Found.index_error ↦ raise EngineError.index_error
    ]
    else done false

abbrev pub or_raised : Raised Bool → Raised Bool → Raised Bool
or_raised (raise e) later = raise e
or_raised (done b) (raise e) = raise e
or_raised (done b) (done c) = done (b || c)

-- The loop over the checks: whether one of them is violated.
unfoldable pub any_violated :
    Library → List (String × String) → InvocationRecord → List PolicyCheck → Raised Bool
unfolding check_violated
any_violated library environment invocation [] = done false
any_violated library environment invocation (check ∷ checks) =
    or_raised (check_violated library environment invocation check)
      (any_violated library environment invocation checks)

abbrev pub is_denied_check : PolicyCheck → Bool
is_denied_check denied_check = true
is_denied_check _ = false

abbrev pub is_deny : AuthorizationStatus → Bool
is_deny deny = true
is_deny _ = false

unfoldable pub policy_status : Bool → Bool → InvocationRecord → Bool → Observation → Status
unfolding with_observation
policy_status violated denial_expected invocation positive_control observation =
    with_observation observation (
      if violated
      then failed
      else if denial_expected
      then (if is_deny invocation.authorization && positive_control then passed else error)
      else if is_true invocation.allowed
      then passed
      else error)

abbrev pub policy_severity : Status → Bool → Severity → Severity
policy_severity error violated severity = medium
policy_severity _ violated severity = if violated then severity else info

module _ {World : Type 0} where
  abbrev pub or_throw : {A : Type 0} → Raised A → Guard World A
  or_throw (raise e) = throw e
  or_throw (done a) = return a

  module _ (guard : GuardEngine World) where
    unfoldable pub check_policy_probe : String → PolicyProbe → Guard World Unit
    unfolding invoke_with_mutation_observation any_violated policy_status merged
    check_policy_probe tool_name probe = do
      identity ← item_or_throw (lookup probe.identity guard.contract.identities)
      seen ←
          invoke_with_mutation_observation guard probe.id probe.identity tool_name probe.arguments
      let environment =
          merged guard.library.filters guard.contract.server_environment identity.environment
      violated ← or_throw (any_violated guard.library environment seen.invocation probe.checks)
      positive_control ←
          read (λ s. has_control tool_name probe.identity s.identity_positive_controls)
      let status =
          policy_status violated (any is_denied_check probe.checks) seen.invocation positive_control
            seen.observation
      add_finding (record {
        test_id = probe.id;
        category = "policy_boundary";
        status = status;
        severity = policy_severity status violated probe.severity;
        observation = seen.observation;
      })

    unfoldable pub check_tool_policies : String → ToolContract → Guard World Unit
    unfolding tool_invocation_enabled each check_policy_probe
    check_tool_policies tool_name tool =
        if not (tool_invocation_enabled guard tool)
        then each (λ probe. add_finding (lab_skip probe.id "policy_boundary")) tool.policy_probes
        else each (check_policy_probe tool_name) tool.policy_probes

    unfoldable pub check_policy_probes : Guard World Unit
    unfolding each check_tool_policies
    check_policy_probes = each (λ t. check_tool_policies t.0 t.1) guard.contract.tools
