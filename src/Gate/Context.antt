-- ===== src/Gate/Context.antt =====
-- What binds a run to its evidence in assurance/phase2/gate/gate.py: `_manifest_for_run`,
-- `_validate_context_core`, `_validate_context_files`, `_source_digest_errors`,
-- `_receipt_compatibility` and `_verify_reference`.
use mcp_behaviour_guard.Prelude.{
  String, Bool, ◌||◌, Option, none, some, List, [], ◌∷◌, ◌++◌, if◌then◌else◌, ◌==◌, eqb,
}
use Prim.Native.String.{◌++◌ as ◌⧺◌}
use mcp_behaviour_guard.Json.{Json, null, text, array, object, Fields}
use mcp_behaviour_guard.SavedRun.Value.{get, json_eq, as_object, is_null}
use mcp_behaviour_guard.Evidence.{text_length}
use mcp_behaviour_guard.SavedRun.Load.{StoredFile, absent, present, RunDirectory}
use mcp_behaviour_guard.Gate.{
  Checked, crashed, accepted, ◌>>=◌, mapping, is_text, is_number, unless, sha, load, refused,
}

-- The hashes of a run's three files.
pub record RunManifest : Type 0 where
  pub report_json_sha256 : String
  pub receipt_json_sha256 : String
  pub tool_inventory_sha256 : String

abbrev pub run_digest : StoredFile → Checked String
run_digest absent = refused "saved run is missing report.json, receipt.json or tool-inventory.json"
run_digest (present digest content) = accepted digest

unfoldable pub manifest_for_run : RunDirectory → Checked RunManifest
manifest_for_run run = do
  report ← run_digest run.report
  receipt ← run_digest run.receipt
  inventory ← run_digest run.tool_inventory
  accepted (record {
    report_json_sha256 = report;
    receipt_json_sha256 = receipt;
    tool_inventory_sha256 = inventory;
  })

-- policy.get("images", {}).get(name): the policy has been validated, so its images are a mapping.
abbrev pub image_of : Fields → String → Json
image_of policy name = elim (as_object (get "images" policy)) [
  | none ↦ null
  | some images ↦ get name images
]

-- `expected is not None and value != expected` is an error.
abbrev pub as_expected : Json → Json → Bool
as_expected expected value = is_null expected || json_eq value expected

-- The field is None or the digest; an unhashable value raises.
abbrev pub self_digest_errors : String → Json → Checked (List String)
self_digest_errors digest (array items) = crashed
self_digest_errors digest (object fields) = crashed
self_digest_errors digest value = accepted (
    unless (is_null value || is_text digest value)
      "execution context self-digest field is not permitted")

-- What the trusted caller selected.
pub record Expected : Type 0 where
  pub attempt_id : Json
  pub candidate_image : Json
  pub candidate_mode : Json

module _ (context policy : Fields) where
  abbrev pub same_image : String → String → Bool
  same_image key name = json_eq (get key context) (image_of policy name)

  unfoldable pub binding_errors : String → Expected → List String
  binding_errors policy_digest expected =
      unless (is_number 1 (get "schema_version" context))
        "execution context schema_version is not 1"
      ++ (unless (is_text policy_digest (get "policy_profile_digest" context))
            "execution context policy profile digest mismatch"
          ++ (unless (json_eq (get "platform" context) (get "platform" policy))
                "execution context platform differs from selected policy"
              ++ (unless (as_expected expected.attempt_id (get "attempt_id" context))
                    "execution context attempt differs from trusted selected attempt"
                  ++ (unless (as_expected expected.candidate_image (get "candidate_image" context))
                        "execution context candidate image differs from trusted selected subject"
                      ++ (unless
                            (as_expected expected.candidate_mode (get "candidate_mode" context))
                            "execution context candidate mode differs from trusted selected subject"
                          ++ (unless
                                (json_eq (get "orchestrator_sha256" context)
                                  (get "orchestrator_sha256" policy))
                                "execution context orchestrator identity differs from policy"
                              ++ (unless (is_text "valid" (get "subject_binding" context))
                                    "execution context subject binding is not valid"
                                  ++ (unless (same_image "gate_image" "gate")
                                        "execution context gate image mismatch"
                                      ++ (unless (same_image "evaluator_image" "evaluator")
                                            "execution context evaluator image mismatch"
                                          ++ (unless (same_image "fixture_image" "fixture")
                                                "execution context fixture image mismatch"
                                              ++ (unless
                                                    (is_text "http://candidate:7000"
                                                      (get "logical_candidate_origin" context))
                                                    "execution context candidate logical origin is unstable/unapproved"
                                                  ++ (unless
                                                        (is_text "http://fixture-control:9000"
                                                          (get "logical_control_origin" context))
                                                        "execution context control logical origin is unstable/unapproved"
                                                      ++ unless
                                                          (is_text "http://fixture-app:8001" (
                                                            get "logical_fixture_app_origin"
                                                            context))
                                                          "execution context fixture-app logical origin is unstable/unapproved"))))))))))))

  -- `_validate_context_core`, with the context's file.
  unfoldable pub validate_context_core : StoredFile → String → Expected → Checked (List String)
  unfolding binding_errors
  validate_context_core context_file policy_digest expected = do
    digest ← sha context_file
    self ← self_digest_errors digest (get "execution_context_sha256" context)
    accepted (binding_errors policy_digest expected ++ self)

  -- `_validate_context_files`
  unfoldable pub validate_context_files :
      StoredFile → RunDirectory → StoredFile → String → Expected → Checked (List String)
  unfolding validate_context_core manifest_for_run
  validate_context_files context_file run final_file policy_digest expected = do
    core ← validate_context_core context_file policy_digest expected
    manifest ← manifest_for_run run
    final ← sha final_file
    accepted (
        core
        ++ (unless (is_text manifest.report_json_sha256 (get "report_json_sha256" context))
              "execution context report hash mismatch"
            ++ (unless (is_text manifest.receipt_json_sha256 (get "receipt_json_sha256" context))
                  "execution context receipt hash mismatch"
                ++ (unless
                      (is_text manifest.tool_inventory_sha256 (get "tool_inventory_sha256" context))
                      "execution context inventory hash mismatch"
                    ++ unless (is_text final (get "final_snapshot_sha256" context))
                        "execution context final snapshot hash mismatch"))))

-- isinstance(v, str) and len(v) == 64
abbrev pub digest_in : Json → Option String
digest_in (text s) = if eqb (text_length s) 64 then some s else none
digest_in _ = none

-- `_source_digest_errors`: the digest that the context names, and the file.
unfoldable pub source_digest_errors : String → Option String → String → StoredFile → List String
source_digest_errors digest_key none label file =
    ("execution context " ⧺ (digest_key ⧺ " is missing/invalid"))
    ∷ (elim file [ absent ↦ (label ⧺ " is missing") ∷ [] | present actual content ↦ [] ])
source_digest_errors digest_key (some expected) label absent = (label ⧺ " is missing") ∷ []
source_digest_errors digest_key (some expected) label (present actual content) =
    unless (actual == expected) (label ⧺ " hash mismatch")

-- `_receipt_compatibility`, in its order.
unfoldable pub receipt_compatibility : RunDirectory → Checked (List (String × Json))
unfolding load
receipt_compatibility run = do
  receipt ← load run.receipt
  context ← mapping "receipt context mapping missing" (get "context" receipt)
  runner ← mapping "receipt runner mapping missing" (get "runner" receipt)
  checks ← mapping "receipt checks mapping missing" (get "checks" receipt)
  accepted (
      ("normalization_version", get "normalization_version" receipt)
      ∷ ("report_schema_version", get "report_schema_version" receipt)
      ∷ ("contract_source_sha256", get "contract_source_sha256" context)
      ∷ ("logical_target", get "logical_target" context)
      ∷ ("fixture_profile", get "fixture_profile" context)
      ∷ ("effective_policy_sha256", get "effective_policy_sha256" context)
      ∷ ("identity_profile_sha256", get "identity_profile_sha256" context)
      ∷ ("observer_scope_sha256", get "observer_scope_sha256" context)
      ∷ ("target_input_sha256", get "target_input_sha256" context)
      ∷ ("checks_definition_sha256", get "definition_sha256" checks)
      ∷ ("runner_version", get "version" runner)
      ∷ ("mcp_sdk_version", get "mcp_sdk_version" runner)
      ∷ ("transport", get "transport" runner)
      ∷ ("state_strategy", get "state_strategy" runner)
      ∷ ("protocol_versions", get "protocol_versions" runner)
      ∷ [])

abbrev pub manifest_error : Fields → String → String → List String
manifest_error manifest key value =
    unless (is_text value (get key manifest)) ("approved reference manifest mismatch: " ⧺ key)

-- `_verify_reference`: the approved reference is the one at hand.
abbrev pub compare_manifest :
    Fields → RunDirectory → StoredFile → StoredFile → Checked (List String)
compare_manifest manifest reference reference_context reference_final = do
  current ← manifest_for_run reference
  context_digest ← sha reference_context
  final_digest ← sha reference_final
  accepted (
      manifest_error manifest "report_json_sha256" current.report_json_sha256
      ++ (manifest_error manifest "receipt_json_sha256" current.receipt_json_sha256
          ++ (manifest_error manifest "tool_inventory_sha256" current.tool_inventory_sha256
              ++ (manifest_error manifest "execution_context_sha256" context_digest
                  ++ manifest_error manifest "final_snapshot_sha256" final_digest))))

abbrev pub verify_manifest :
    Option Fields → RunDirectory → StoredFile → StoredFile → Checked (List String)
verify_manifest none run context_file final_file =
    accepted ("approval reference manifest missing" ∷ [])
verify_manifest (some manifest) run context_file final_file =
    compare_manifest manifest run context_file final_file

unfoldable pub verify_reference :
    Option Fields → RunDirectory → StoredFile → StoredFile → Checked (List String)
unfolding manifest_for_run
verify_reference none run context_file final_file =
    accepted ("approval bundle reference mapping missing" ∷ [])
verify_reference (some reference) run context_file final_file =
    verify_manifest (as_object (get "manifest" reference)) run context_file final_file
