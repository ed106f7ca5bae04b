-- ===== src/SavedRun/Receipt/Known.antt =====
-- What `_validate_receipt_v1` of src/mcp_behaviour_guard/baseline.py says of the fields that two
-- receipts are compared by.
use mcp_behaviour_guard.Prelude.{
  String, true, false, not, ◌≡◌, refl, ◌||◌, List, [], ◌∷◌, ◌++◌, all, arith, Bool, contains,
  ==-cases, inl, inr, ap, ◌∙◌, both,
}
use mcp_behaviour_guard.Json.{Json, Fields, object}
use mcp_behaviour_guard.SavedRun.Error.{on_ok, ok, require, require-ok, >>=-eq-ok}
use mcp_behaviour_guard.SavedRun.Value.{get, is_null, is_nonempty_text}
use mcp_behaviour_guard.SavedRun.Receipt.{
  require_keys, require_texts, require_optional_texts, mapping, sections_message,
  validate_receipt_v1, check_protocol_versions,
}
use mcp_behaviour_guard.SavedRun.Comparability.{
  FieldPath, dotted, is_unknown_capable, unsupported_fields, changed_context_fields, walk,
}

-- The field has a value, or is one of those that may be unknown.
abbrev pub is_settled : Fields → FieldPath → Bool
is_settled receipt path = is_unknown_capable path || not (is_null (dotted receipt path))

nonempty_text_lem : (v : Json) → is_nonempty_text v ≡ true → is_null v ≡ false
nonempty_text_lem v h = ground arith

require_texts_lem :
    (keys : List String) (section : Fields) {u : Unit {0}} (key : String)
    → require_texts keys section ≡ ok u
    → contains keys key ≡ true
    → is_null (get key section) ≡ false
unfolding require_texts
require_texts_lem [] section key h member = cc
require_texts_lem (first ∷ keys) section key h member =
    on_ok
      (require (is_nonempty_text (get first section)) "receipt field must be a non-empty string") _
      h
      λ u here rest. elim (==-cases key first) [
        | inl same ↦ rw same (nonempty_text_lem (get first section) (require-ok _ _ here))
        | inr apart ↦ require_texts_lem keys section key rest (rw apart at member)
      ]

walk_object :
    (section key : String) (receipt : Fields) {fs : Fields}
    → get section receipt ≡ object fs
    → walk (section ∷ key ∷ []) (object receipt) ≡ get key fs
unfolding walk
walk_object section key receipt e = ap (walk (key ∷ [])) e

known_at :
    (name section key : String) (receipt : Fields) {fs : Fields}
    → get section receipt ≡ object fs
    → is_null (get key fs) ≡ false
    → not (is_null (dotted receipt (record { name = name; parts = section ∷ key ∷ [] }))) ≡ true
unfolding dotted
known_at name section key receipt e h = ap not (ap is_null (walk_object section key receipt e) ∙ h)

abbrev context_texts : List String
context_texts =
    "contract_source_sha256" ∷ "target_input_sha256" ∷ "effective_policy_sha256"
    ∷ "identity_profile_sha256" ∷ "observer_scope_sha256" ∷ []

abbrev context_keys : List String
context_keys =
    "logical_target" ∷ "deployment_identity" ∷ "credential_principal" ∷ "contract_source_sha256"
    ∷ "target_input_sha256" ∷ "effective_policy_sha256" ∷ "identity_profile_sha256"
    ∷ "observer_scope_sha256" ∷ "fixture_profile" ∷ []

abbrev run_keys : List String
run_keys = "run_id" ∷ "attempt_id" ∷ "started_at" ∷ "finished_at" ∷ "completion" ∷ []

abbrev runner_keys : List String
runner_keys =
    "version" ∷ "mcp_sdk_version" ∷ "transport" ∷ "state_strategy" ∷ "protocol_versions" ∷ []

abbrev fixture_message : String
fixture_message = "receipt field context.fixture_profile must be a mapping"

mapping_known :
    (message : String) (v : Json) {fs : Fields} → mapping message v ≡ ok fs → is_null v ≡ false
unfolding mapping
mapping_known message v h = ground arith

pub mapping-eq_ok :
    (message : String) (v : Json) {fs : Fields} → mapping message v ≡ ok fs → v ≡ object fs
unfolding mapping
mapping-eq_ok message v h = ground arith

known_sections :
    (receipt : Fields) {context runner checks : Fields} {u : Unit {0}}
    → get "context" receipt ≡ object context
    → get "runner" receipt ≡ object runner
    → get "checks" receipt ≡ object checks
    → require_texts context_texts context ≡ ok u
    → require_texts ("logical_target" ∷ []) context ≡ ok u
    → is_null (get "fixture_profile" context) ≡ false
    → require_texts ("version" ∷ []) runner ≡ ok u
    → require_texts ("definition_sha256" ∷ []) checks ≡ ok u
    → all (is_settled receipt) (unsupported_fields ++ changed_context_fields) ≡ true
known_sections receipt {context} e_context e_runner e_checks texts target fixture version
      definition =
    let text_at : (key : String)
        → contains context_texts key ≡ true
        → is_null (get key context) ≡ false =
      λ key. require_texts_lem context_texts context key texts in
    both
      (known_at "context.logical_target" "context" "logical_target" receipt e_context
        (require_texts_lem _ context "logical_target" target refl))
      (both
        (known_at "context.effective_policy_sha256" "context" "effective_policy_sha256" receipt
          e_context (text_at "effective_policy_sha256" refl))
        (both
          (known_at "context.identity_profile_sha256" "context" "identity_profile_sha256" receipt
            e_context (text_at "identity_profile_sha256" refl))
          (both
            (known_at "context.observer_scope_sha256" "context" "observer_scope_sha256" receipt
              e_context (text_at "observer_scope_sha256" refl))
            (both
              (known_at "context.fixture_profile" "context" "fixture_profile" receipt e_context
                fixture)
              (both
                (known_at "runner.version" "runner" "version" receipt e_runner
                  (require_texts_lem _ _ "version" version refl))
                (both
                  (known_at "checks.definition_sha256" "checks" "definition_sha256" receipt e_checks
                    (require_texts_lem _ _ "definition_sha256" definition refl))
                  refl))))))

-- A receipt that validates has a value in each field that may not be unknown.
pub validate_receipt_v1-is_settled :
    (receipt : Fields) {u : Unit {0}}
    → validate_receipt_v1 receipt ≡ ok u
    → all (is_settled receipt) (unsupported_fields ++ changed_context_fields) ≡ true
unfolding validate_receipt_v1
validate_receipt_v1-is_settled receipt h =
    let (u, e, h) =
      >>=-eq-ok (require_keys ("run" ∷ "context" ∷ "runner" ∷ "checks" ∷ "artifacts" ∷ []) receipt)
        _ h in
    let (run, e, h) = >>=-eq-ok (mapping sections_message (get "run" receipt)) _ h in
    let (context, h_context, h) =
      >>=-eq-ok (mapping sections_message (get "context" receipt)) _ h in
    let (runner, h_runner, h) = >>=-eq-ok (mapping sections_message (get "runner" receipt)) _ h in
    let (checks, h_checks, h) = >>=-eq-ok (mapping sections_message (get "checks" receipt)) _ h in
    let (artifacts, e, h) = >>=-eq-ok (mapping sections_message (get "artifacts" receipt)) _ h in
    let (u, e, h) = >>=-eq-ok (require_keys run_keys run) _ h in
    let (u, e, h) = >>=-eq-ok (require_keys context_keys context) _ h in
    let (u, e, h) = >>=-eq-ok (require_keys runner_keys runner) _ h in
    let (u, e, h) =
      >>=-eq-ok (require_keys ("finding_ids" ∷ "definition_sha256" ∷ []) checks) _ h in
    let (u, e, h) =
      >>=-eq-ok (require_keys ("report_json_sha256" ∷ "tool_inventory_sha256" ∷ []) artifacts) _
        h in
    let (u, h_texts, h) = >>=-eq-ok (require_texts context_texts context) _ h in
    let (u, h_target, h) = >>=-eq-ok (require_texts ("logical_target" ∷ []) context) _ h in
    let (u, e, h) =
      >>=-eq-ok
        (require_optional_texts ("deployment_identity" ∷ "credential_principal" ∷ []) context) _
        h in
    let (u, h_fixture, h) =
      >>=-eq-ok (mapping fixture_message (get "fixture_profile" context)) _ h in
    let (u, h_version, h) = >>=-eq-ok (require_texts ("version" ∷ []) runner) _ h in
    let (u, e, h) =
      >>=-eq-ok
        (require_optional_texts ("mcp_sdk_version" ∷ "transport" ∷ "state_strategy" ∷ []) runner) _
        h in
    let (u, e, h) = >>=-eq-ok (check_protocol_versions (get "protocol_versions" runner)) _ h in
    known_sections receipt (mapping-eq_ok sections_message (get "context" receipt) h_context)
      (mapping-eq_ok sections_message (get "runner" receipt) h_runner)
      (mapping-eq_ok sections_message (get "checks" receipt) h_checks) h_texts h_target
      (mapping_known fixture_message (get "fixture_profile" context) h_fixture) h_version h
