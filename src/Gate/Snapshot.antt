-- ===== src/Gate/Snapshot.antt =====
-- `_validate_snapshot` of assurance/phase2/gate/gate.py: the fixture's final ledger of requests
-- and its audit, against each other.
pub mod Ledger
pub mod Quiet
use mcp_behaviour_guard.Prelude.{
  ℕ, String, Bool, true, false, ◌||◌, Option, none, some, List, [], ◌∷◌, ◌++◌, if◌then◌else◌,
  is_empty, eqb,
}
use mcp_behaviour_guard.Prelude.Int.{pos}
use mcp_behaviour_guard.Json.{Json, boolean, integer, Items, nil, Fields}
use mcp_behaviour_guard.SavedRun.Value.{get, as_array}
use mcp_behaviour_guard.Gate.{is_text, unless}
use mcp_behaviour_guard.Gate.Scan.{
  AuditScan, RequestScan, SnapshotAssessment, committed_events, count, cross_events, cross_requests,
  is_range, scan_audit, scan_requests,
}

-- An array, and a list that is empty where it is none.
abbrev pub items_or_nil : Option Items → Items
items_or_nil none = nil
items_or_nil (some items) = items

abbrev pub is_array : Option Items → Bool
is_array none = false
is_array (some items) = true

-- The watermark's two errors.
abbrev pub watermark_attribution : Json → List String
watermark_attribution (integer (pos n)) = []
watermark_attribution _ = "final audit watermark is not a non-negative integer" ∷ []

abbrev pub watermark_completion : ℕ → Json → List String
watermark_completion n (integer (pos m)) = unless (eqb m n) "final audit watermark is inconsistent"
watermark_completion n _ = []

-- value is True
abbrev pub is_true_value : Json → Bool
is_true_value (boolean true) = true
is_true_value _ = false

module _ (snapshot : Fields) (attempt_id : String) where
  abbrev pub audit_of : Items
  audit_of = items_or_nil (as_array (get "audit" snapshot))

  abbrev pub requests_of : Items
  requests_of = items_or_nil (as_array (get "requests" snapshot))

  abbrev pub audit_scan : AuditScan
  audit_scan = scan_audit [] [] audit_of

  abbrev pub request_scan : RequestScan
  request_scan = scan_requests attempt_id [] requests_of

  unfoldable pub attribution_errors : List String
  unfolding scan_audit scan_requests cross_events cross_requests is_range
  attribution_errors =
      unless (is_text attempt_id (get "attempt_id" snapshot)) "final snapshot attempt_id mismatch"
      ++ (unless (is_array (as_array (get "audit" snapshot))) "final snapshot audit is not a list"
          ++ (unless (is_array (as_array (get "requests" snapshot)))
                "final snapshot requests is not a list"
              ++ (watermark_attribution (get "final_watermark" snapshot)
                  ++ (audit_scan.invalid
                      ++ (unless
                            (is_empty audit_scan.seqs
                              || is_range 1 (count audit_of) audit_scan.seqs)
                            "audit sequence is not contiguous"
                          ++ (request_scan.attribution
                              ++ (cross_events request_scan.requests audit_scan.events
                                  ++ cross_requests audit_scan.events request_scan.requests)))))))

  unfoldable pub completion_errors : List String
  unfolding scan_requests
  completion_errors =
      watermark_completion (count audit_of) (get "final_watermark" snapshot)
      ++ (unless (is_text "FENCED" (get "state" snapshot)) "final snapshot state is not FENCED"
          ++ (unless (is_true_value (get "audit_complete" snapshot)) "audit_complete is not true"
              ++ request_scan.completion))

  -- Violations and reviews count only where nothing is wrong with the attribution.
  unfoldable pub validate_snapshot : SnapshotAssessment
  unfolding attribution_errors completion_errors committed_events scan_audit scan_requests
  validate_snapshot =
      let attributed = is_empty attribution_errors in
      record {
        violations =
            if attributed then committed_events audit_scan.events request_scan.requests else [];
        attribution_invalid = attribution_errors;
        completion_invalid = completion_errors;
        review = if attributed then request_scan.review else [];
      }
