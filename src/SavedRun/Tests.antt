-- ===== src/SavedRun/Tests.antt =====
-- One saved run, as the two files and the inventory of its directory, for the comparison of
-- src/mcp_behaviour_guard/baseline.py.
use mcp_behaviour_guard.SavedRun.Error.{ok}
use mcp_behaviour_guard.Prelude.{
  ◌↔◌, String, ◌≡◌, refl, List, [], ◌∷◌, true, contains, ◌≢◌, all, false, some, ◌⊎◌, ◌++◌,
}
use mcp_behaviour_guard.Json.{
  Json, Fields, end, Items, text, array, integer, field, nil, null, cons, object,
}
use mcp_behaviour_guard.SavedRun.Load.{
  RunDirectory, load_saved_run, present, compare_directories, parsed,
}
use mcp_behaviour_guard.SavedRun.Finding.{
  SavedFinding, passed, high, complete, index_saved_findings, find, observation_regressed,
}
use mcp_behaviour_guard.SavedRun.Compare.{
  SavedRun, compare_saved_runs, transition, missing_checks, newly_skipped, observation_regressions,
}
use mcp_behaviour_guard.SavedRun.Exit.{exit_status}
use mcp_behaviour_guard.SavedRun.Receipt.{validate_receipt_v1}
use mcp_behaviour_guard.Prelude.Int.{pos}
use mcp_behaviour_guard.SavedRun.Value.{json_eq, has_visible, get}
use mcp_behaviour_guard.SavedRun.Comparability.{
  saved_run_comparability, collect_notes, each_field, comparable, unsupported_fields,
  changed_context_fields, note_information, dotted, note_context, note_unsupported,
}
use mcp_behaviour_guard.SavedRun.Inventory.{
  tool_names, SavedTool, find_tool, compare_saved_tool_inventory,
}
use mcp_behaviour_guard.SavedRun.Conformance.{conformance, pass}
use mcp_behaviour_guard.SavedRun.Finding.Index.{distinct, index_saved_findings-distinct}
use mcp_behaviour_guard.SavedRun.Conformance.Meaning.{all_passed, conformance-pass}
use mcp_behaviour_guard.SavedRun.Comparability.Agree.{is_equal_at, comparable_iff}
use mcp_behaviour_guard.SavedRun.Load.Digest.{load_saved_run-digest, HasReport}
use mcp_behaviour_guard.SavedRun.Load.Checks.{Lists}
use mcp_behaviour_guard.SavedRun.Inventory.Review.{SameTool}
use mcp_behaviour_guard.SavedRun.Exit.Sound.{exit_zero_tools, exit_zero_sound}
use mcp_behaviour_guard.Prelude.Table.{fetch_one}

-- Digests of 64 digits.
abbrev pub report_digest : String
report_digest = "1111111111111111111111111111111111111111111111111111111111111111"

abbrev pub inventory_digest : String
inventory_digest = "2222222222222222222222222222222222222222222222222222222222222222"

abbrev pub receipt_digest : String
receipt_digest = "3333333333333333333333333333333333333333333333333333333333333333"

abbrev pub fields : List (String × Json) → Fields
fields [] = end
fields ((k, v) ∷ rest) = field k v (fields rest)

abbrev pub items : List Json → Items
items [] = nil
items (x ∷ xs) = cons x (items xs)

abbrev run_section : Fields
run_section = fields (
    ("run_id", text "run-1")
    ∷ ("attempt_id", text "attempt-1")
    ∷ ("started_at", text "t0")
    ∷ ("finished_at", text "t1")
    ∷ ("completion", text "completed")
    ∷ [])

abbrev context_section : Fields
context_section = fields (
    ("logical_target", text "demo")
    ∷ ("deployment_identity", null)
    ∷ ("credential_principal", text "tester")
    ∷ ("contract_source_sha256", text "c1")
    ∷ ("target_input_sha256", text "c2")
    ∷ ("effective_policy_sha256", text "c3")
    ∷ ("identity_profile_sha256", text "c4")
    ∷ ("observer_scope_sha256", text "c5")
    ∷ ("fixture_profile", object end)
    ∷ [])

abbrev runner_section : Fields
runner_section = fields (
    ("version", text "1.0")
    ∷ ("mcp_sdk_version", text "1.2")
    ∷ ("transport", text "stdio")
    ∷ ("state_strategy", null)
    ∷ ("protocol_versions", array (items (text "2025-06-18" ∷ [])))
    ∷ [])

abbrev checks_section : Fields
checks_section =
    fields
      (("finding_ids", array (items (text "CHECK-A" ∷ []))) ∷ ("definition_sha256", text "d1") ∷ [])

abbrev artifacts_section : Fields
artifacts_section = fields (
    ("report_json_sha256", text report_digest)
    ∷ ("tool_inventory_sha256", text inventory_digest)
    ∷ [])

abbrev receipt : Fields
receipt = fields (
    ("schema_version", integer (pos 1))
    ∷ ("normalization_version", integer (pos 3))
    ∷ ("normalization", object (fields (("unverified_sensitive_fields", array nil) ∷ [])))
    ∷ ("report_schema_version", integer (pos 2))
    ∷ ("run", object run_section)
    ∷ ("context", object context_section)
    ∷ ("runner", object runner_section)
    ∷ ("checks", object checks_section)
    ∷ ("artifacts", object artifacts_section)
    ∷ [])

abbrev finding_fields : Json → Fields
finding_fields status = fields (
    ("test_id", text "CHECK-A")
    ∷ ("status", status)
    ∷ ("severity", text "high")
    ∷ ("observation", text "complete")
    ∷ [])

abbrev report_with : Json → Fields
report_with status = fields (
    ("schema_version", integer (pos 2))
    ∷ ("run_id", text "run-1")
    ∷ ("target", text "demo")
    ∷ ("sdk_version", text "1.2")
    ∷ ("transport", text "stdio")
    ∷ ("state_strategy", null)
    ∷ ("assessment", text "pass")
    ∷ ("findings", array (items (object (finding_fields status) ∷ [])))
    ∷ [])

abbrev pub passed_report : Fields
passed_report = report_with (text "passed")

abbrev tool_fields : Fields
tool_fields = fields (("name", text "read_file") ∷ ("description", text "Reads.") ∷ [])

abbrev directory_with : Json → RunDirectory
directory_with status = record {
  receipt = present receipt_digest (parsed (object receipt));
  report = present report_digest (parsed (object (report_with status)));
  tool_inventory = present inventory_digest (parsed (array (items (object tool_fields ∷ []))));
}

abbrev pub directory : RunDirectory
directory = directory_with (text "passed")

abbrev finding_a : SavedFinding
finding_a = record { test_id = "CHECK-A"; status = passed; severity = high; observation = complete }

abbrev loaded : SavedRun
loaded = record {
  receipt = receipt;
  receipt_sha256 = receipt_digest;
  report = report_with (text "passed");
  findings = finding_a ∷ [];
  tools = record { name = "read_file"; entry = tool_fields } ∷ [];
  tool_inventory_available = true;
}

abbrev pub same_hash : Json → String
same_hash j = ""

loads : load_saved_run directory ≡ ok loaded
unfolding load_saved_run json_eq has_visible
loads = refl

compares_clean : exit_status (ok (compare_saved_runs same_hash loaded loaded)) ≡ 0
unfolding exit_status compare_saved_runs collect_notes each_field json_eq saved_run_comparability
    note_information dotted note_context note_unsupported conformance transition fetch_one
    missing_checks newly_skipped observation_regressions compare_saved_tool_inventory
compares_clean = refl

exit_zero_sound_example :
    ((saved_run_comparability receipt receipt).state ≡ comparable)
    × ((finding_a ∷ []) ≢ [])
    × ((i : String) (before : SavedFinding)
        → find i (finding_a ∷ []) ≡ some before
        → (after : SavedFinding) × (find i (finding_a ∷ []) ≡ some after)
          × (after.status ≡ passed)
          × ((before.observation ≡ after.observation)
              ⊎ (observation_regressed before.observation after.observation ≡ false)))
exit_zero_sound_example = exit_zero_sound same_hash loaded loaded compares_clean

exit_zero_tools_example :
    (true ≡ true)
    × (true ≡ true)
    × ((i : String) → contains (tool_names loaded.tools) i ≡ contains (tool_names loaded.tools) i)
    × ((i : String) (before after : SavedTool)
        → find_tool i loaded.tools ≡ some before
        → find_tool i loaded.tools ≡ some after
        → SameTool same_hash before after)
exit_zero_tools_example = exit_zero_tools same_hash loaded loaded compares_clean

validates : validate_receipt_v1 receipt ≡ ok tt
unfolding validate_receipt_v1 has_visible
validates = refl

comparable_iff_example :
    ((saved_run_comparability receipt receipt).state ≡ comparable)
    ↔ (all (is_equal_at receipt receipt) (unsupported_fields ++ changed_context_fields) ≡ true)
comparable_iff_example = comparable_iff receipt receipt validates validates

load_saved_run-digest_example :
    HasReport directory loaded
    × (index_saved_findings loaded.report ≡ ok loaded.findings)
    × Lists loaded.receipt loaded.findings
    × ((get "assessment" loaded.report ≡ text "pass")
        ↔ ((all_passed loaded.findings ≡ true) × (loaded.findings ≢ [])))
load_saved_run-digest_example = load_saved_run-digest directory loads

indexes : index_saved_findings loaded.report ≡ ok loaded.findings
unfolding index_saved_findings
indexes = refl

index_saved_findings-distinct_example :
    (distinct ("CHECK-A" ∷ []) ≡ true) × (contains ("CHECK-A" ∷ []) "" ≡ false)
index_saved_findings-distinct_example = index_saved_findings-distinct loaded.report indexes

conformance-pass_example :
    (conformance (finding_a ∷ []) ≡ pass)
    ↔ ((all_passed (finding_a ∷ []) ≡ true) × ((finding_a ∷ []) ≢ []))
conformance-pass_example = conformance-pass (finding_a ∷ [])

-- A status that is a list is no member of a set: the command ends with the status of a review.
unhashable_status :
    exit_status (compare_directories same_hash directory (directory_with (array nil))) ≡ 1
unfolding exit_status compare_directories json_eq has_visible
unhashable_status = refl
