-- ===== src/Gate/Examples.antt =====
-- A release that assurance/phase2/gate/gate.py passes: the candidate's files are those of its
-- reference, and the fixture saw nothing.
use mcp_behaviour_guard.Prelude.{String, true, List, [], ◌∷◌}
use mcp_behaviour_guard.Prelude.Int.{pos}
use mcp_behaviour_guard.Json.{Json, Fields, text, integer, boolean, object, array, nil, null}
use mcp_behaviour_guard.SavedRun.Tests.{
  fields, items, directory, report_digest, receipt_digest, inventory_digest,
}
use mcp_behaviour_guard.SavedRun.Load.{StoredFile, present, parsed}
use mcp_behaviour_guard.Gate.{Embedded}
use mcp_behaviour_guard.Gate.Decision.{pass_outcome}
use mcp_behaviour_guard.Gate.Decision.{EvaluateArgs, Decision, no_evidence}

abbrev pub file : String → List (String × Json) → StoredFile
file digest entries = present digest (parsed (object (fields entries)))

-- What the gate expects of a report.
abbrev pub required : Fields
required = fields (
    ("CHECK-A", object (fields (("status", text "passed") ∷ ("observation", text "complete") ∷ [])))
    ∷ [])

abbrev pub expected_entries : List (String × Json)
expected_entries =
    ("required_findings", object required)
    ∷ ("conditional_suffixes", array (items (text "-EFFECTS" ∷ [])))
    ∷ []

abbrev pub embedded : Embedded
embedded = record {
  expected_checks = file "m1" expected_entries;
  gate_rules = file "g1" [];
  gate_source = file "s1" [];
}

abbrev pub policy_file : StoredFile
policy_file = file "p1" (
    ("schema_version", integer (pos 1))
    ∷ ("platform", text "linux/arm64")
    ∷ ("decision_scope", text "phase2b4_local_synthetic_gate_only")
    ∷ (
      "images",
      object (
          fields (
            ("gate", text "gate-image")
            ∷ ("evaluator", text "evaluator-image")
            ∷ ("fixture", text "fixture-image")
            ∷ [])),
    )
    ∷ ("expected_checks_sha256", text "m1")
    ∷ ("gate_rules_sha256", text "g1")
    ∷ ("gate_source_sha256", text "s1")
    ∷ ("contract_sha256", text "c1")
    ∷ ("orchestrator_sha256", text "o1")
    ∷ ("guard", object (fields (("version", text "0.6.2") ∷ [])))
    ∷ [])

abbrev pub compatibility_entries : List (String × Json)
compatibility_entries =
    ("normalization_version", integer (pos 3))
    ∷ ("report_schema_version", integer (pos 2))
    ∷ ("contract_source_sha256", text "c1")
    ∷ ("logical_target", text "demo")
    ∷ ("fixture_profile", object (fields []))
    ∷ ("effective_policy_sha256", text "c3")
    ∷ ("identity_profile_sha256", text "c4")
    ∷ ("observer_scope_sha256", text "c5")
    ∷ ("target_input_sha256", text "c2")
    ∷ ("checks_definition_sha256", text "d1")
    ∷ ("runner_version", text "1.0")
    ∷ ("mcp_sdk_version", text "1.2")
    ∷ ("transport", text "stdio")
    ∷ ("state_strategy", null)
    ∷ ("protocol_versions", array (items (text "2025-06-18" ∷ [])))
    ∷ []

abbrev pub approval_file : StoredFile
approval_file = file "a1" (
    ("policy_profile_digest", text "p1")
    ∷ (
      "reference",
      object (
          fields (
            (
              "manifest",
              object (
                  fields (
                    ("report_json_sha256", text report_digest)
                    ∷ ("receipt_json_sha256", text receipt_digest)
                    ∷ ("tool_inventory_sha256", text inventory_digest)
                    ∷ ("execution_context_sha256", text "x0")
                    ∷ ("final_snapshot_sha256", text "f0")
                    ∷ [])),
            )
            ∷ ("origin_attempt_id", text "attempt-0")
            ∷ ("compatibility", object (fields compatibility_entries))
            ∷ [])),
    )
    ∷ [])

abbrev pub snapshot_digest : String
snapshot_digest = "4444444444444444444444444444444444444444444444444444444444444444"

abbrev pub quiet_snapshot : Fields
quiet_snapshot = fields (
    ("attempt_id", text "attempt-1")
    ∷ ("audit", array nil)
    ∷ ("requests", array nil)
    ∷ ("final_watermark", integer (pos 0))
    ∷ ("state", text "FENCED")
    ∷ ("audit_complete", boolean true)
    ∷ [])

abbrev pub context_entries : List (String × Json)
context_entries =
    ("schema_version", integer (pos 1))
    ∷ ("policy_profile_digest", text "p1")
    ∷ ("platform", text "linux/arm64")
    ∷ ("attempt_id", text "attempt-1")
    ∷ ("candidate_image", text "candidate-image")
    ∷ ("candidate_mode", text "good")
    ∷ ("orchestrator_sha256", text "o1")
    ∷ ("subject_binding", text "valid")
    ∷ ("gate_image", text "gate-image")
    ∷ ("evaluator_image", text "evaluator-image")
    ∷ ("fixture_image", text "fixture-image")
    ∷ ("logical_candidate_origin", text "http://candidate:7000")
    ∷ ("logical_control_origin", text "http://fixture-control:9000")
    ∷ ("logical_fixture_app_origin", text "http://fixture-app:8001")
    ∷ ("report_json_sha256", text report_digest)
    ∷ ("receipt_json_sha256", text receipt_digest)
    ∷ ("tool_inventory_sha256", text inventory_digest)
    ∷ ("final_snapshot_sha256", text snapshot_digest)
    ∷ ("attempt_completion", text "finalized")
    ∷ ("cleanup_complete", boolean true)
    ∷ []

abbrev pub context_file : StoredFile
context_file = file "x1" context_entries

abbrev pub release : EvaluateArgs
release = record {
  policy = policy_file;
  approval = approval_file;
  reference_dir = directory;
  reference_context = file "x0" [];
  reference_final = file "f0" [];
  candidate_dir = directory;
  candidate_context = context_file;
  candidate_final = present snapshot_digest (parsed (object quiet_snapshot));
  selected_approval_digest = "a1";
  expected_attempt_id = "attempt-1";
  expected_candidate_image = "candidate-image";
  expected_candidate_mode = "good";
  selected_gate_image = "gate-image";
}

abbrev pub passed_release : Decision
passed_release = record {
  outcome = pass_outcome;
  authority_errors = [];
  binding_errors = [];
  evidence = no_evidence;
}
