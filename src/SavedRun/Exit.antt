-- ===== src/SavedRun/Exit.antt =====
-- The exit status of `baseline_compare_saved` in src/mcp_behaviour_guard/cli.py. An exception that
-- the command does not catch ends the process with status 1.
pub mod Sound
use mcp_behaviour_guard.Prelude.{ℕ, Bool, true, false, not, ◌||◌, if◌then◌else◌}
use mcp_behaviour_guard.SavedRun.Error.{Loaded, ok, err, comparison_error, type_error, decode_error}
use mcp_behaviour_guard.SavedRun.Conformance.{Verdict, pass}
use mcp_behaviour_guard.SavedRun.Comparability.{
  ComparisonState, unsupported, changed_context, comparable,
}
use mcp_behaviour_guard.SavedRun.Compare.{SavedRunDiff}

abbrev pub is_pass : Verdict → Bool
is_pass pass = true
is_pass _ = false

-- After the output has been written.
status_of_state : ComparisonState → SavedRunDiff → ℕ
status_of_state unsupported diff = 2
status_of_state changed_context diff = 1
status_of_state comparable diff =
    if not (is_pass diff.candidate_conformance)
      || (diff.has_new_regression
          || (diff.coverage_regression || diff.capabilities.review_required))
    then 1
    else 0

unfoldable pub exit_status : Loaded SavedRunDiff → ℕ
unfolding status_of_state
exit_status (ok diff) = status_of_state diff.comparability.state diff
exit_status (err (comparison_error message)) = 2
exit_status (err type_error) = 1
exit_status (err decode_error) = 1
