-- ===== src/Gate/Tests.antt =====
-- A release that assurance/phase2/gate/gate.py passes: the candidate's files are those of its
-- reference, and the fixture saw nothing.
use mcp_behaviour_guard.Prelude.{String, true, ◌≡◌, refl, List, [], ◌↔◌, some}
use mcp_behaviour_guard.Json.{Json, Fields, object, get?}
use mcp_behaviour_guard.SavedRun.Tests.{
  fields, directory, same_hash, report_digest, receipt_digest, inventory_digest, passed_report,
}
use mcp_behaviour_guard.SavedRun.Load.{present, parsed}
use mcp_behaviour_guard.Gate.{accepted, load}
use mcp_behaviour_guard.Gate.Matrix.{findings}
use mcp_behaviour_guard.Gate.Evaluate.{evaluate}
use mcp_behaviour_guard.Gate.Sound.{IsReleasable}
use mcp_behaviour_guard.SavedRun.Value.{json_eq, has_visible, as_object, get}
use mcp_behaviour_guard.Gate.Sound.Pass.{pass-IsReleasable}
use mcp_behaviour_guard.Gate.Snapshot.{validate_snapshot}
use mcp_behaviour_guard.Gate.Snapshot.Quiet.{is_clean, IsQuiet, clean_iff}
use mcp_behaviour_guard.SavedRun.Compare.{
  compare_saved_runs, transition, missing_checks, newly_skipped, observation_regressions,
}
use mcp_behaviour_guard.SavedRun.Comparability.{
  collect_notes, each_field, saved_run_comparability, note_information, dotted, note_context,
  note_unsupported,
}
use mcp_behaviour_guard.SavedRun.Conformance.{conformance}
use mcp_behaviour_guard.Prelude.Table.{fetch_one}
use mcp_behaviour_guard.SavedRun.Inventory.{compare_saved_tool_inventory}
use mcp_behaviour_guard.Gate.Matrix.{matrix, no_reasons}
use mcp_behaviour_guard.Gate.Promote.{
  PromoteArgs, promote, bundle_of, bundle_manifest, promote-verify_reference,
}
use mcp_behaviour_guard.Gate.Matrix.Met.{IsMet, matrix-IsMet}
use mcp_behaviour_guard.Gate.Context.{verify_reference}
use mcp_behaviour_guard.Gate.Examples.{
  compatibility_entries, context_entries, context_file, embedded, expected_entries, passed_release,
  policy_file, quiet_snapshot, release, required, snapshot_digest,
}

release_passes : evaluate same_hash same_hash embedded release ≡ accepted passed_release
unfolding evaluate json_eq has_visible compare_saved_runs collect_notes each_field
    saved_run_comparability note_information dotted note_context note_unsupported conformance
    transition fetch_one missing_checks newly_skipped observation_regressions
    compare_saved_tool_inventory
release_passes = refl

pass-IsReleasable_example : IsReleasable same_hash same_hash embedded release
pass-IsReleasable_example =
    pass-IsReleasable same_hash same_hash embedded release passed_release release_passes refl

clean_iff_example :
    (is_clean (validate_snapshot quiet_snapshot "attempt-1") ≡ true)
    ↔ IsQuiet quiet_snapshot "attempt-1"
clean_iff_example = clean_iff quiet_snapshot "attempt-1"

expects : load embedded.expected_checks ≡ accepted (fields expected_entries)
unfolding load
expects = refl

matches : matrix same_hash embedded.expected_checks passed_report ≡ accepted no_reasons
unfolding matrix json_eq
matches = refl

matrix-IsMet_example :
    (found : List (String × Fields)) × (findings passed_report ≡ accepted found)
    × ((test_id : String) (rule : Json)
        → get? test_id required ≡ some rule
        → IsMet found test_id rule)
matrix-IsMet_example =
    matrix-IsMet same_hash embedded.expected_checks passed_report (fields expected_entries) required
      no_reasons expects refl matches refl refl

abbrev promotion : PromoteArgs
promotion = record {
  policy = policy_file;
  reference_dir = directory;
  reference_context = context_file;
  reference_final = present snapshot_digest (parsed (object quiet_snapshot));
  selected_gate_image = "gate-image";
}

abbrev approved_bundle : Fields
approved_bundle =
    bundle_of
      (record {
        policy_digest = "p1";
        context = fields context_entries;
        compatibility = compatibility_entries;
      })
      (bundle_manifest
        (record {
          report_json_sha256 = report_digest;
          receipt_json_sha256 = receipt_digest;
          tool_inventory_sha256 = inventory_digest;
        })
        "x1" snapshot_digest)

promotes : promote same_hash embedded promotion ≡ accepted approved_bundle
unfolding promote json_eq bundle_of
promotes = refl

promote-verify_reference_example :
    verify_reference
      (as_object (get "reference" approved_bundle))
      directory
      context_file
      promotion.reference_final
    ≡ accepted []
promote-verify_reference_example =
    promote-verify_reference same_hash embedded promotion approved_bundle promotes
