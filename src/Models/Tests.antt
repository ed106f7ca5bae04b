-- ===== src/Models/Tests.antt =====
-- A run with one failed check, for src/mcp_behaviour_guard/models.py.
use mcp_behaviour_guard.Prelude.{◌≡◌, refl, [], ◌∷◌, map, List}
use mcp_behaviour_guard.SavedRun.Finding.{passed, failed, high, info, not_required}
use mcp_behaviour_guard.SavedRun.Conformance.{conformance, fail}
use mcp_behaviour_guard.Models.{Finding, assessment}
use mcp_behaviour_guard.Models.Agree.{saved, conformance-saved}

abbrev findings : List Finding
findings =
    record {
      test_id = "A";
      category = "authorization";
      status = passed;
      severity = info;
      observation = not_required;
    }
    ∷ record {
      test_id = "B";
      category = "replay";
      status = failed;
      severity = high;
      observation = not_required;
    }
    ∷ []

assessed : assessment findings ≡ fail
unfolding assessment
assessed = refl

conformance-saved_example : conformance (map saved findings) ≡ assessment findings
conformance-saved_example = conformance-saved findings
