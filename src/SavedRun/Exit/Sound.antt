-- ===== src/SavedRun/Exit/Sound.antt =====
-- What exit status 0 of `baseline_compare_saved` in src/mcp_behaviour_guard/cli.py says of the two
-- runs.
use mcp_behaviour_guard.Prelude.{
  String, Bool, true, false, not, ◌≡◌, ◌&&◌, is_empty, List, [], ◌≢◌, arith, some, ◌⊎◌, contains,
  Bool-cases, inl, inr,
}
use mcp_behaviour_guard.SavedRun.Exit.{exit_status, ok}
use mcp_behaviour_guard.Json.{Json}
use mcp_behaviour_guard.SavedRun.Compare.{
  SavedRunDiff, compare_saved_runs, SavedRun, missing_checks, same_observation,
  observation_regressions, where_both,
}
use mcp_behaviour_guard.SavedRun.Comparability.{comparable, saved_run_comparability}
use mcp_behaviour_guard.SavedRun.Conformance.{pass}
use mcp_behaviour_guard.SavedRun.Finding.{
  SavedFinding, find, passed, observation_regressed, Observation, ids,
}
use mcp_behaviour_guard.Prelude.Members.{contains-find, find-contains}
use mcp_behaviour_guard.SavedRun.Compare.Members.{
  contains-difference, is_empty-contains, contains-where_both,
}
use mcp_behaviour_guard.SavedRun.Inventory.{difference, tool_names, SavedTool, find_tool}
use mcp_behaviour_guard.SavedRun.Conformance.Meaning.{conformance-pass, passed_of_pass}
use mcp_behaviour_guard.SavedRun.Inventory.Review.{SameTool, review_not_required}

-- The five dimensions that the command tests.
pub exit_zero :
    (diff : SavedRunDiff)
    → exit_status (ok diff) ≡ 0
    → (diff.comparability.state ≡ comparable)
      × (diff.candidate_conformance ≡ pass)
      × (diff.has_new_regression ≡ false)
      × (diff.coverage_regression ≡ false)
      × (diff.capabilities.review_required ≡ false)
unfolding exit_status
exit_zero diff h = ground arith

same_observation→eq : (a b : Observation) → same_observation a b ≡ true → a ≡ b
same_observation→eq a b h = ground arith

-- The checks that a clean coverage section leaves no question about.
coverage_parts :
    (stable_hash : Json → String) (reference candidate : SavedRun)
    → (compare_saved_runs stable_hash reference candidate).coverage_regression ≡ false
    → (is_empty (missing_checks reference.findings candidate.findings) ≡ true)
      × (is_empty (observation_regressions reference.findings candidate.findings) ≡ true)
unfolding compare_saved_runs
coverage_parts stable_hash reference candidate h = ground arith

-- A check of the reference is not missing, and is observed no worse.
check_kept :
    (reference candidate : List SavedFinding) (i : String) (before : SavedFinding)
    → is_empty (missing_checks reference candidate) ≡ true
    → is_empty (observation_regressions reference candidate) ≡ true
    → find i reference ≡ some before
    → (after : SavedFinding) × (find i candidate ≡ some after)
      × ((before.observation ≡ after.observation)
          ⊎ (observation_regressed before.observation after.observation ≡ false))
unfolding missing_checks observation_regressions
check_kept reference candidate i before missing regressions found =
    let here = contains-find (λ f. f.test_id) i reference found in
    let kept : contains (ids candidate) i ≡ true = ground (
      arith,
      contains-difference (ids reference) (ids candidate) i,
      is_empty-contains (difference (ids reference) (ids candidate)) i missing,
    ) in
    let (after, there) = find-contains (λ f. f.test_id) i candidate kept in
    let test : SavedFinding → SavedFinding → Bool = λ r c.
      not (same_observation r.observation c.observation)
      && observation_regressed r.observation c.observation in
    let quiet = rw (found, there) at (contains-where_both reference candidate test i) in
    let none_here = is_empty-contains (where_both reference candidate test) i regressions in
    (
      after,
      there,
      elim (Bool-cases (same_observation before.observation after.observation)) [
        | inl same ↦ inl (same_observation→eq before.observation after.observation same)
        | inr apart ↦ inr (ground (arith, quiet, none_here))
      ],
    )

-- The command exits with 0 only if the contexts are comparable, the candidate has findings and all
-- of them passed, and every check of the reference is one of the candidate's, passes there, and is
-- observed no worse.
pub exit_zero_sound :
    (stable_hash : Json → String) (reference candidate : SavedRun)
    → exit_status (ok (compare_saved_runs stable_hash reference candidate)) ≡ 0
    → ((saved_run_comparability reference.receipt candidate.receipt).state ≡ comparable)
      × (candidate.findings ≢ [])
      × ((i : String) (before : SavedFinding)
          → find i reference.findings ≡ some before
          → (after : SavedFinding) × (find i candidate.findings ≡ some after)
            × (after.status ≡ passed)
            × ((before.observation ≡ after.observation)
                ⊎ (observation_regressed before.observation after.observation ≡ false)))
unfolding compare_saved_runs
exit_zero_sound stable_hash reference candidate h =
    let diff = compare_saved_runs stable_hash reference candidate in
    let (state, conforms, steady, covered, reviewed) = exit_zero diff h in
    let (all_pass, findings) = (conformance-pass candidate.findings).0 conforms in
    let (missing, regressions) = coverage_parts stable_hash reference candidate covered in
    (
      state,
      findings,
      λ i before found.
          let (after, there, observed) =
            check_kept reference.findings candidate.findings i before missing regressions found in
          (after, there, passed_of_pass candidate.findings i all_pass there, observed),
    )

-- The command exits with 0 only if both runs declared their tools, the two have tools of the same
-- names, and a tool of both has an equal hash of its schema and of its metadata in the two.
pub exit_zero_tools :
    (stable_hash : Json → String) (reference candidate : SavedRun)
    → exit_status (ok (compare_saved_runs stable_hash reference candidate)) ≡ 0
    → (reference.tool_inventory_available ≡ true)
      × (candidate.tool_inventory_available ≡ true)
      × ((i : String)
          → contains (tool_names reference.tools) i ≡ contains (tool_names candidate.tools) i)
      × ((i : String) (before after : SavedTool)
          → find_tool i reference.tools ≡ some before
          → find_tool i candidate.tools ≡ some after
          → SameTool stable_hash before after)
unfolding compare_saved_runs
exit_zero_tools stable_hash reference candidate h =
    let diff = compare_saved_runs stable_hash reference candidate in
    review_not_required stable_hash reference.tools candidate.tools
      reference.tool_inventory_available candidate.tool_inventory_available (exit_zero diff h).4
