-- ===== src/SavedRun/Compare.antt =====
-- `compare_saved_runs` of src/mcp_behaviour_guard/baseline.py, on two loaded runs: the result's
-- conformance, regression, coverage and capability sections. Lists of identifiers are sorted, as in
-- the source.
pub mod Members
use mcp_behaviour_guard.Prelude.{
  String, Bool, true, false, not, ◌&&◌, ◌||◌, Option, some, List, ltb, is_empty,
}
use mcp_behaviour_guard.Prelude.Table.{fetch_all}
use mcp_behaviour_guard.Json.{Json, Fields}
use mcp_behaviour_guard.SavedRun.Finding.{
  SavedFinding, Status, passed, failed, error, skipped, Severity, critical, high, medium, low, info,
  Observation, complete, partial, unavailable, not_required, ids, find, severity_rank,
  observation_regressed,
}
use mcp_behaviour_guard.SavedRun.Conformance.{Verdict, same_status, conformance}
use mcp_behaviour_guard.SavedRun.Comparability.{
  Comparability, ComparisonState, comparable, saved_run_comparability,
}
use mcp_behaviour_guard.SavedRun.Inventory.{
  SavedTool, Capabilities, sorted_names, difference, intersection, compare_saved_tool_inventory,
}

-- What `_load_saved_run` returns.
pub record SavedRun : Type 0 where
  pub receipt : Fields
  pub receipt_sha256 : String
  pub report : Fields
  pub findings : List SavedFinding
  pub tools : List SavedTool
  pub tool_inventory_available : Bool

abbrev pub is_comparable : ComparisonState → Bool
is_comparable comparable = true
is_comparable _ = false

abbrev pub same_severity : Severity → Severity → Bool
same_severity critical critical = true
same_severity high high = true
same_severity medium medium = true
same_severity low low = true
same_severity info info = true
same_severity _ _ = false

abbrev pub same_observation : Observation → Observation → Bool
same_observation complete complete = true
same_observation partial partial = true
same_observation unavailable unavailable = true
same_observation not_required not_required = true
same_observation _ _ = false

-- A test of the two findings of an identifier. The identifiers tested are in both dictionaries.
abbrev pub on_both :
    (SavedFinding → SavedFinding → Bool) → Option SavedFinding → Option SavedFinding → Bool
on_both test (some before) (some after) = test before after
on_both test _ _ = false

module _ (reference candidate : List SavedFinding) where
  abbrev pub common_ids : List String
  common_ids = intersection (ids reference) (ids candidate)

  -- [test_id for test_id in common_ids if test]
  unfoldable pub where_both : (SavedFinding → SavedFinding → Bool) → List String
  unfolding intersection fetch_all
  where_both test = fetch_all (λ i. on_both test (find i reference) (find i candidate)) common_ids

  -- reference[…]["status"] == before and candidate[…]["status"] == after
  abbrev pub moved : Status → Status → SavedFinding → SavedFinding → Bool
  moved before after r c = same_status before r.status && same_status after c.status

  -- sorted(test_id for test_id in common_ids if comparison_is_comparable and …)
  unfoldable pub transition : ComparisonState → Status → Status → List String
  unfolding sorted_names where_both
  transition state before after =
      sorted_names (where_both (λ r c. is_comparable state && moved before after r c))

  unfoldable pub missing_checks : List String
  unfolding difference
  missing_checks = difference (ids reference) (ids candidate)

  unfoldable pub new_checks : List String
  unfolding difference
  new_checks = difference (ids candidate) (ids reference)

  unfoldable pub skipped_checks : List String
  unfolding sorted_names fetch_all
  skipped_checks = sorted_names (ids (fetch_all (λ f. same_status skipped f.status) candidate))

  unfoldable pub newly_skipped : List String
  unfolding sorted_names where_both
  newly_skipped =
      sorted_names
        (where_both (λ r c. same_status skipped c.status && not (same_status skipped r.status)))

  unfoldable pub status_changes : List String
  unfolding where_both
  status_changes = where_both (λ r c. not (same_status r.status c.status))

  unfoldable pub severity_changes : List String
  unfolding where_both
  severity_changes = where_both (λ r c. not (same_severity r.severity c.severity))

  unfoldable pub severity_escalations : List String
  unfolding where_both severity_rank
  severity_escalations = where_both (λ r c.
      not (same_severity r.severity c.severity)
      && ltb (severity_rank c.severity) (severity_rank r.severity))

  unfoldable pub observation_changes : List String
  unfolding where_both
  observation_changes = where_both (λ r c. not (same_observation r.observation c.observation))

  unfoldable pub observation_regressions : List String
  unfolding where_both observation_regressed
  observation_regressions = where_both (λ r c.
      not (same_observation r.observation c.observation)
      && observation_regressed r.observation c.observation)

-- The result. A change is given by its identifier: both ends are in the findings.
pub record SavedRunDiff : Type 0 where
  pub comparability : Comparability
  pub reference_conformance : Verdict
  pub candidate_conformance : Verdict
  pub new_failures : List String
  pub fixed_failures : List String
  pub persistent_failures : List String
  pub new_errors : List String
  pub resolved_errors : List String
  pub status_changes : List String
  pub severity_changes : List String
  pub severity_escalations : List String
  pub has_new_regression : Bool
  pub missing_checks : List String
  pub new_checks : List String
  pub skipped_checks : List String
  pub observation_changes : List String
  pub observation_regressions : List String
  pub capability_inventory_regression : Bool
  pub coverage_regression : Bool
  pub capabilities : Capabilities

unfoldable pub compare_saved_runs : (Json → String) → SavedRun → SavedRun → SavedRunDiff
compare_saved_runs stable_hash reference candidate =
    let comparability = saved_run_comparability reference.receipt candidate.receipt in
    let r = reference.findings in
    let c = candidate.findings in
    let new_failures = transition r c comparability.state passed failed in
    let new_errors = transition r c comparability.state passed error in
    let missing = missing_checks r c in
    let regressions = observation_regressions r c in
    let inventory_lost =
      reference.tool_inventory_available && not candidate.tool_inventory_available in
    record {
      comparability = comparability;
      reference_conformance = conformance r;
      candidate_conformance = conformance c;
      new_failures = new_failures;
      fixed_failures = transition r c comparability.state failed passed;
      persistent_failures = transition r c comparability.state failed failed;
      new_errors = new_errors;
      resolved_errors = transition r c comparability.state error passed;
      status_changes = status_changes r c;
      severity_changes = severity_changes r c;
      severity_escalations = severity_escalations r c;
      has_new_regression = is_comparable comparability.state && not (is_empty new_failures);
      missing_checks = missing;
      new_checks = new_checks r c;
      skipped_checks = skipped_checks r c;
      observation_changes = observation_changes r c;
      observation_regressions = regressions;
      capability_inventory_regression = inventory_lost;
      coverage_regression =
          not (is_empty missing)
          || (not (is_empty (newly_skipped r c))
              || (not (is_empty new_errors) || (not (is_empty regressions) || inventory_lost)));
      capabilities =
          compare_saved_tool_inventory stable_hash reference.tools candidate.tools
            reference.tool_inventory_available candidate.tool_inventory_available;
    }
