-- ===== src/SavedRun/Conformance/Meaning.antt =====
-- What `_conformance` of src/mcp_behaviour_guard/baseline.py says of the findings.
use mcp_behaviour_guard.Prelude.{
  String, Bool, true, false, ◌≡◌, refl, all, List, [], ◌∷◌, ◌≢◌, arith, some, ◌↔◌,
}
use mcp_behaviour_guard.SavedRun.Finding.{
  SavedFinding, Status, passed, failed, error, skipped, find,
}
use mcp_behaviour_guard.SavedRun.Conformance.{same_status, has_status, conformance, pass}
use mcp_behaviour_guard.Prelude.Table.{fetch_one}

abbrev pub all_passed : List SavedFinding → Bool
all_passed = all λ f. same_status passed f.status

status_cases :
    (findings : List SavedFinding)
    → has_status failed findings ≡ false
    → has_status error findings ≡ false
    → has_status skipped findings ≡ false
    → all_passed findings ≡ true
status_cases [] f e s = refl
status_cases (x ∷ xs) f e s = ground (arith, status_cases xs)

none_other :
    (other : Status) (findings : List SavedFinding)
    → same_status other passed ≡ false
    → all_passed findings ≡ true
    → has_status other findings ≡ false
none_other other [] apart h = refl
none_other other (x ∷ xs) apart h = ground (arith, none_other other xs)

-- A run conforms exactly when it has findings and all of them passed.
pub conformance-pass :
    (findings : List SavedFinding)
    → (conformance findings ≡ pass) ↔ ((all_passed findings ≡ true) × (findings ≢ []))
unfolding conformance
conformance-pass [] = (λ h. cc, λ h. absurd (h.1 refl))
conformance-pass (x ∷ xs) = (
  λ h. (status_cases (x ∷ xs) (ground arith) (ground arith) (ground arith), λ e. cc),
  λ h. ground (
    arith,
    none_other failed (x ∷ xs) refl h.0,
    none_other error (x ∷ xs) refl h.0,
    none_other skipped (x ∷ xs) refl h.0,
  ),
)

pub passed_of_pass :
    (findings : List SavedFinding) (i : String) {finding : SavedFinding}
    → all_passed findings ≡ true
    → find i findings ≡ some finding
    → finding.status ≡ passed
unfolding fetch_one
passed_of_pass [] i all_pass found = cc
passed_of_pass (x ∷ xs) i {finding} all_pass found =
    ground (arith, passed_of_pass xs i {finding = finding})
