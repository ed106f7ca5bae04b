-- ===== src/SavedRun/Comparability.antt =====
-- `_saved_run_comparability` and `_dotted` of src/mcp_behaviour_guard/baseline.py: which parts of
-- the context of two runs differ, and whether the runs can be compared.
pub mod Agree
use mcp_behaviour_guard.Prelude.{
  String, Bool, not, ◌&&◌, ◌||◌, List, [], ◌∷◌, ◌++◌, map, contains, any, ◌==◌, text_leb,
  if◌then◌else◌, is_empty,
}
use mcp_behaviour_guard.Json.{Json, null, object, Fields}
use mcp_behaviour_guard.SavedRun.Value.{json_eq, get, is_null}

-- A dotted name, and what `split(".")` makes of it.
pub record FieldPath : Type 0 where
  pub name : String
  pub parts : List String

abbrev logical_target : FieldPath
logical_target = record {
  name = "context.logical_target";
  parts = "context" ∷ "logical_target" ∷ [];
}

abbrev deployment_identity : FieldPath
deployment_identity = record {
  name = "context.deployment_identity";
  parts = "context" ∷ "deployment_identity" ∷ [];
}

abbrev credential_principal : FieldPath
credential_principal = record {
  name = "context.credential_principal";
  parts = "context" ∷ "credential_principal" ∷ [];
}

abbrev effective_policy : FieldPath
effective_policy = record {
  name = "context.effective_policy_sha256";
  parts = "context" ∷ "effective_policy_sha256" ∷ [];
}

abbrev identity_profile : FieldPath
identity_profile = record {
  name = "context.identity_profile_sha256";
  parts = "context" ∷ "identity_profile_sha256" ∷ [];
}

abbrev observer_scope : FieldPath
observer_scope = record {
  name = "context.observer_scope_sha256";
  parts = "context" ∷ "observer_scope_sha256" ∷ [];
}

abbrev fixture_profile : FieldPath
fixture_profile = record {
  name = "context.fixture_profile";
  parts = "context" ∷ "fixture_profile" ∷ [];
}

abbrev runner_version : FieldPath
runner_version = record { name = "runner.version"; parts = "runner" ∷ "version" ∷ [] }

abbrev mcp_sdk_version : FieldPath
mcp_sdk_version = record {
  name = "runner.mcp_sdk_version";
  parts = "runner" ∷ "mcp_sdk_version" ∷ [];
}

abbrev transport : FieldPath
transport = record { name = "runner.transport"; parts = "runner" ∷ "transport" ∷ [] }

abbrev state_strategy : FieldPath
state_strategy = record { name = "runner.state_strategy"; parts = "runner" ∷ "state_strategy" ∷ [] }

abbrev protocol_versions : FieldPath
protocol_versions = record {
  name = "runner.protocol_versions";
  parts = "runner" ∷ "protocol_versions" ∷ [];
}

abbrev definition : FieldPath
definition = record {
  name = "checks.definition_sha256";
  parts = "checks" ∷ "definition_sha256" ∷ [];
}

abbrev contract_source : FieldPath
contract_source = record {
  name = "context.contract_source_sha256";
  parts = "context" ∷ "contract_source_sha256" ∷ [];
}

abbrev target_input : FieldPath
target_input = record {
  name = "context.target_input_sha256";
  parts = "context" ∷ "target_input_sha256" ∷ [];
}

abbrev pub unsupported_fields : List FieldPath
unsupported_fields = logical_target ∷ deployment_identity ∷ credential_principal ∷ []

abbrev pub changed_context_fields : List FieldPath
changed_context_fields =
    effective_policy ∷ identity_profile ∷ observer_scope ∷ fixture_profile ∷ runner_version
    ∷ mcp_sdk_version ∷ transport ∷ state_strategy ∷ protocol_versions ∷ definition ∷ []

abbrev pub informational_fields : List FieldPath
informational_fields = contract_source ∷ target_input ∷ []

abbrev pub unknown_capable_fields : List FieldPath
unknown_capable_fields =
    deployment_identity ∷ credential_principal ∷ mcp_sdk_version ∷ transport ∷ state_strategy
    ∷ protocol_versions ∷ []

abbrev pub names : List FieldPath → List String
names = map (λ f. f.name)

-- The walk of `_dotted`: anything that is no dictionary ends it in `None`.
unfoldable pub walk : List String → Json → Json
walk [] current = current
walk (part ∷ parts) (object fs) = walk parts (get part fs)
walk (part ∷ parts) _ = null

unfoldable pub dotted : Fields → FieldPath → Json
unfolding walk
dotted receipt path = walk path.parts (object receipt)

-- The four lists that the loops extend.
pub record Notes : Type 0 where
  pub reasons : List String
  pub input_changes : List String
  pub unknown_fields : List String
  pub asymmetric_unknown_fields : List String

abbrev pub no_notes : Notes
no_notes = record {
  reasons = [];
  input_changes = [];
  unknown_fields = [];
  asymmetric_unknown_fields = [];
}

abbrev pub is_unknown_capable : FieldPath → Bool
is_unknown_capable path = contains (names unknown_capable_fields) path.name

abbrev pub note_change : FieldPath → Notes → Notes
note_change path notes = record notes {
  reasons = notes.reasons ++ path.name ∷ [];
  input_changes = notes.input_changes ++ path.name ∷ [];
}

abbrev pub note_asymmetric : FieldPath → Notes → Notes
note_asymmetric path notes = record (note_change path notes) {
  asymmetric_unknown_fields = notes.asymmetric_unknown_fields ++ path.name ∷ [];
}

abbrev pub note_unknown : FieldPath → Notes → Notes
note_unknown path notes = record notes { unknown_fields = notes.unknown_fields ++ path.name ∷ [] }

-- (before is None) != (after is None)
abbrev pub one_is_null : Json → Json → Bool
one_is_null before after =
    is_null before && not (is_null after) || not (is_null before) && is_null after

-- One round of the loop over `unsupported_fields`.
unfoldable pub note_unsupported : FieldPath → Json → Json → Notes → Notes
note_unsupported path before after notes =
    if is_null before || is_null after
    then (if is_unknown_capable path
        then (if one_is_null before after
            then note_asymmetric path (note_unknown path notes)
            else note_unknown path notes)
        else notes)
    else if json_eq before after
    then notes
    else note_change path notes

abbrev pub note_unknown_once : FieldPath → Notes → Notes
note_unknown_once path notes =
    if contains notes.unknown_fields path.name then notes else note_unknown path notes

-- One round of the loop over `changed_context_fields`.
unfoldable pub note_context : FieldPath → Json → Json → Notes → Notes
note_context path before after notes =
    if is_null before || is_null after
    then (if is_unknown_capable path
        then (if one_is_null before after
            then note_asymmetric path (note_unknown_once path notes)
            else note_unknown_once path notes)
        else notes)
    else if json_eq before after
    then notes
    else note_change path notes

-- One round of the loop over `informational_fields`.
unfoldable pub note_information : FieldPath → Json → Json → Notes → Notes
note_information path before after notes =
    if not (is_null before) && (not (is_null after) && not (json_eq before after))
    then record notes { input_changes = notes.input_changes ++ path.name ∷ [] }
    else notes

-- A loop over fields, with one of the three rounds.
unfoldable pub each_field :
    (FieldPath → Json → Json → Notes → Notes) → List FieldPath → Fields → Fields → Notes → Notes
each_field round [] reference candidate notes = notes
each_field round (path ∷ paths) reference candidate notes =
    each_field round paths reference candidate
      (round path (dotted reference path) (dotted candidate path) notes)

unfoldable pub collect_notes : Fields → Fields → Notes
collect_notes reference candidate =
    each_field note_information informational_fields reference candidate (
      each_field note_context changed_context_fields reference candidate
        (each_field note_unsupported unsupported_fields reference candidate no_notes))

pub data ComparisonState : Type 0 where
  unsupported changed_context comparable : ComparisonState

unfoldable pub state_of : Notes → ComparisonState
state_of notes =
    if not (is_empty notes.asymmetric_unknown_fields)
      || any (contains (names unsupported_fields)) notes.reasons
    then unsupported
    else if not (is_empty notes.reasons)
    then changed_context
    else comparable

-- sorted(set(xs))
insert_once : String → List String → List String
insert_once x [] = x ∷ []
insert_once x (y ∷ ys) =
    if x == y then y ∷ ys else if text_leb x y then x ∷ y ∷ ys else y ∷ insert_once x ys

unfoldable pub sorted_set : List String → List String
unfolding insert_once
sorted_set [] = []
sorted_set (x ∷ xs) = insert_once x (sorted_set xs)

pub record Comparability : Type 0 where
  pub state : ComparisonState
  pub reasons : List String
  pub input_changes : List String
  pub unknown_fields : List String

unfoldable pub saved_run_comparability : Fields → Fields → Comparability
unfolding state_of sorted_set
saved_run_comparability reference candidate =
    let notes = collect_notes reference candidate in
    record {
      state = state_of notes;
      reasons = sorted_set notes.reasons;
      input_changes = sorted_set notes.input_changes;
      unknown_fields = sorted_set notes.unknown_fields;
    }
