-- ===== src/Gate/Snapshot/Quiet.antt =====
-- The final evidence of which assurance/phase2/gate/gate.py says nothing.
use mcp_behaviour_guard.Prelude.{
  ◌&&◌, ◌||◌, String, Bool, true, ◌≡◌, refl, List, [], ◌∷◌, arith, sym, is_empty, ◌∙◌, ap, ◌↔◌,
}
use mcp_behaviour_guard.Json.{Json, text, nil, Fields, boolean, integer, float, array, object, null}
use mcp_behaviour_guard.SavedRun.Value.{get, as_array}
use mcp_behaviour_guard.Gate.{is_text, unless}
use mcp_behaviour_guard.Gate.Snapshot.{
  is_array, watermark_attribution, validate_snapshot, is_true_value, watermark_completion,
  attribution_errors, items_or_nil, completion_errors, audit_scan, request_scan, audit_of,
  requests_of,
}
use mcp_behaviour_guard.Gate.Scan.{
  scan_audit, scan_requests, cross_events, cross_requests, committed_events, SnapshotAssessment,
  count, is_range,
}
use mcp_behaviour_guard.Prelude.Int.{pos, negsuc}
use mcp_behaviour_guard.Gate.Snapshot.Ledger.{
  append-nil, unless-nil, none_committed, no_events, no_audit, no_requests_made,
}

-- The evidence of an attempt that is fenced, with nothing requested and nothing written.
pub record IsQuiet (snapshot : Fields) (attempt_id : String) : Type 0 where
  pub attempt : is_text attempt_id (get "attempt_id" snapshot) ≡ true
  pub audit : get "audit" snapshot ≡ array nil
  pub requests : get "requests" snapshot ≡ array nil
  pub watermark : get "final_watermark" snapshot ≡ integer (pos 0)
  pub fenced : is_text "FENCED" (get "state" snapshot) ≡ true
  pub audited : is_true_value (get "audit_complete" snapshot) ≡ true

-- Nothing is said of the evidence.
abbrev pub is_clean : SnapshotAssessment → Bool
is_clean a =
    is_empty a.violations
    && (is_empty a.attribution_invalid && (is_empty a.completion_invalid && is_empty a.review))

empty_array :
    (value : Json)
    → is_array (as_array value) ≡ true
    → items_or_nil (as_array value) ≡ nil
    → value ≡ array nil
empty_array (array items) h e = ap array e
empty_array null h e = ground arith
empty_array (boolean b) h e = ground arith
empty_array (integer n) h e = ground arith
empty_array (float x) h e = ground arith
empty_array (text s) h e = ground arith
empty_array (object fs) h e = ground arith

zero_watermark :
    (value : Json)
    → watermark_attribution value ≡ []
    → watermark_completion 0 value ≡ []
    → value ≡ integer (pos 0)
zero_watermark (integer (pos n)) a c = ap (λ m. integer (pos m)) (ground arith)
zero_watermark (integer (negsuc n)) a c = ground arith
zero_watermark null a c = ground arith
zero_watermark (boolean b) a c = ground arith
zero_watermark (float x) a c = ground arith
zero_watermark (text s) a c = ground arith
zero_watermark (array xs) a c = ground arith
zero_watermark (object fs) a c = ground arith

is_empty-nil : {A : Type 0} (xs : List A) → is_empty xs ≡ true → xs ≡ []
is_empty-nil [] h = refl
is_empty-nil (x ∷ xs) h = ground arith

pub clean_parts :
    (a : SnapshotAssessment)
    → is_clean a ≡ true
    → (a.violations ≡ [])
      × (a.attribution_invalid ≡ [])
      × (a.completion_invalid ≡ [])
      × (a.review ≡ [])
clean_parts a h = (
  is_empty-nil a.violations (ground arith),
  is_empty-nil a.attribution_invalid (ground arith),
  is_empty-nil a.completion_invalid (ground arith),
  is_empty-nil a.review (ground arith),
)

module _ (snapshot : Fields) (attempt_id : String) where
  attribution_parts :
      attribution_errors snapshot attempt_id ≡ []
      → (is_text attempt_id (get "attempt_id" snapshot) ≡ true)
        × (is_array (as_array (get "audit" snapshot)) ≡ true)
        × (is_array (as_array (get "requests" snapshot)) ≡ true)
        × (watermark_attribution (get "final_watermark" snapshot) ≡ [])
        × ((audit_scan snapshot attempt_id).invalid ≡ [])
        × ((request_scan snapshot attempt_id).attribution ≡ [])
        × (cross_events
              (request_scan snapshot attempt_id).requests
              (audit_scan snapshot attempt_id).events
            ≡ [])
        × (cross_requests
              (audit_scan snapshot attempt_id).events
              (request_scan snapshot attempt_id).requests
            ≡ [])
  unfolding attribution_errors
  attribution_parts h =
      let audit = audit_scan snapshot attempt_id in
      let ledger = request_scan snapshot attempt_id in
      let (attempt, h) =
        append-nil
          (unless (is_text attempt_id (get "attempt_id" snapshot))
            "final snapshot attempt_id mismatch")
          _ h in
      let (is_list, h) =
        append-nil
          (unless (is_array (as_array (get "audit" snapshot))) "final snapshot audit is not a list")
          _ h in
      let (are_list, h) =
        append-nil
          (unless (is_array (as_array (get "requests" snapshot)))
            "final snapshot requests is not a list")
          _ h in
      let (mark, h) = append-nil (watermark_attribution (get "final_watermark" snapshot)) _ h in
      let (scanned, h) = append-nil audit.invalid _ h in
      let (contiguous, h) =
        append-nil
          (unless
            (is_empty audit.seqs || is_range 1 (count (audit_of snapshot attempt_id)) audit.seqs)
            "audit sequence is not contiguous")
          _ h in
      let (listed, h) = append-nil ledger.attribution _ h in
      let (referred, agreed) = append-nil (cross_events ledger.requests audit.events) _ h in
      (
        unless-nil _ _ attempt,
        unless-nil _ _ is_list,
        unless-nil _ _ are_list,
        mark,
        scanned,
        listed,
        referred,
        agreed,
      )

  completion_parts :
      completion_errors snapshot attempt_id ≡ []
      → (watermark_completion
            (count (audit_of snapshot attempt_id))
            (get "final_watermark" snapshot)
          ≡ [])
        × (is_text "FENCED" (get "state" snapshot) ≡ true)
        × (is_true_value (get "audit_complete" snapshot) ≡ true)
        × ((request_scan snapshot attempt_id).completion ≡ [])
  unfolding completion_errors
  completion_parts h =
      let (mark, h) =
        append-nil
          (watermark_completion (count (audit_of snapshot attempt_id))
            (get "final_watermark" snapshot))
          _ h in
      let (state, h) =
        append-nil
          (unless (is_text "FENCED" (get "state" snapshot)) "final snapshot state is not FENCED") _
          h in
      let (complete, done) =
        append-nil
          (unless (is_true_value (get "audit_complete" snapshot)) "audit_complete is not true") _
          h in
      (mark, unless-nil _ _ state, unless-nil _ _ complete, done)

  attributed_parts :
      attribution_errors snapshot attempt_id ≡ []
      → ((validate_snapshot snapshot attempt_id).violations
          ≡ committed_events
              (audit_scan snapshot attempt_id).events
              (request_scan snapshot attempt_id).requests)
        × ((validate_snapshot snapshot attempt_id).review
            ≡ (request_scan snapshot attempt_id).review)
  unfolding validate_snapshot
  attributed_parts h = (rw h refl, rw h refl)

  quiet_of_clean :
      is_clean (validate_snapshot snapshot attempt_id) ≡ true → IsQuiet snapshot attempt_id
  unfolding validate_snapshot
  quiet_of_clean h =
      let (violations, attribution, completion, reviewed) = clean_parts _ h in
      let (found, remarked) = attributed_parts attribution in
      let (attempt, is_list, are_list, mark, scanned, listed, referred, agreed) =
        attribution_parts attribution in
      let (length_mark, state, complete, done) = completion_parts completion in
      let audit = audit_scan snapshot attempt_id in
      let ledger = request_scan snapshot attempt_id in
      let uncommitted =
        none_committed audit.events ledger.requests agreed (sym found ∙ violations) in
      let empty_audit =
        no_audit (audit_of snapshot attempt_id) scanned
          (no_events ledger.requests audit.events referred uncommitted) in
      let empty_ledger =
        no_requests_made attempt_id [] (requests_of snapshot attempt_id) listed done
          (sym remarked ∙ reviewed) uncommitted in
      record {
        attempt = attempt;
        audit = empty_array _ is_list empty_audit;
        requests = empty_array _ are_list empty_ledger;
        watermark = zero_watermark _ mark (rw empty_audit at length_mark);
        fenced = state;
        audited = complete;
      }

  clean_of_quiet :
      IsQuiet snapshot attempt_id → is_clean (validate_snapshot snapshot attempt_id) ≡ true
  unfolding validate_snapshot attribution_errors completion_errors scan_audit scan_requests
      cross_events cross_requests committed_events
  clean_of_quiet quiet =
      rw (quiet.audit, quiet.requests, quiet.watermark, quiet.attempt, quiet.fenced, quiet.audited)
        refl

  -- The gate has nothing to say of the final evidence of an attempt exactly if that evidence names
  -- the attempt, is fenced and complete, and neither its ledger nor its audit has an entry. So the
  -- evidence of a run that the gate passes shows no request at all, not even one rejected.
  pub clean_iff :
      (is_clean (validate_snapshot snapshot attempt_id) ≡ true) ↔ IsQuiet snapshot attempt_id
  clean_iff = (quiet_of_clean, clean_of_quiet)
