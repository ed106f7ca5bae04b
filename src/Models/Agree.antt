-- ===== src/Models/Agree.antt =====
-- The verdict of a run in src/mcp_behaviour_guard/models.py beside the verdict that
-- src/mcp_behaviour_guard/baseline.py reads off its saved findings.
use mcp_behaviour_guard.Prelude.{◌≡◌, refl, List, [], ◌∷◌, map}
use mcp_behaviour_guard.SavedRun.Finding.{SavedFinding, Status}
use mcp_behaviour_guard.SavedRun.Conformance.{conformance, has_status}
use mcp_behaviour_guard.Models.{Finding, assessment, any_status}

-- A finding as the report stores it.
abbrev pub saved : Finding → SavedFinding
saved f = record {
  test_id = f.test_id;
  status = f.status;
  severity = f.severity;
  observation = f.observation;
}

has_status-saved :
    (status : Status) (findings : List Finding)
    → has_status status (map saved findings) ≡ any_status status findings
has_status-saved status [] = refl
has_status-saved status (f ∷ findings) = rw (has_status-saved status findings) refl

-- The assessment of a run is the conformance that the comparison of saved runs reads off the same
-- findings.
pub conformance-saved :
    (findings : List Finding) → conformance (map saved findings) ≡ assessment findings
unfolding conformance assessment
conformance-saved findings =
    rw
      (
        has_status-saved Status.failed findings,
        has_status-saved Status.error findings,
        has_status-saved Status.skipped findings,
        has_status-saved Status.passed findings,
      )
      refl
