-- ===== src/SavedRun/Conformance.antt =====
-- `_conformance` of src/mcp_behaviour_guard/baseline.py, and when a run conforms.
pub mod Meaning
use mcp_behaviour_guard.Prelude.{Bool, true, false, any, List, if◌then◌else◌}
use mcp_behaviour_guard.SavedRun.Finding.{SavedFinding, Status, passed, failed, error, skipped}

pub data Verdict : Type 0 where
  fail inconclusive not_tested pass : Verdict

abbrev pub same_status : Status → Status → Bool
same_status passed passed = true
same_status failed failed = true
same_status error error = true
same_status skipped skipped = true
same_status _ _ = false

-- status in statuses
abbrev pub has_status : Status → List SavedFinding → Bool
has_status status = any λ f. same_status status f.status

unfoldable pub conformance : List SavedFinding → Verdict
conformance findings =
    if has_status failed findings
    then fail
    else if has_status error findings
    then inconclusive
    else if has_status skipped findings
    then not_tested
    else if has_status passed findings
    then pass
    else not_tested
