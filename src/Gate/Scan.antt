-- ===== src/Gate/Scan.antt =====
-- The loops of `_validate_snapshot` of assurance/phase2/gate/gate.py over the fixture's audit and
-- its ledger of requests.
use mcp_behaviour_guard.Prelude.{
  ℕ, zero, suc, ◌+◌, String, Bool, true, false, not, ◌&&◌, ◌||◌, Option, none, some, List, [], ◌∷◌,
  ◌++◌, if◌then◌else◌, ◌==◌, is_empty, contains, eqb, ltb,
}
use Prim.Native.String.{◌++◌ as ◌⧺◌}
use mcp_behaviour_guard.Prelude.Int.{pos}
use mcp_behaviour_guard.Json.{Json, text, integer, Items, nil, cons, Fields}
use mcp_behaviour_guard.SavedRun.Value.{get, as_object}
use mcp_behaviour_guard.Models.{lookup}
use mcp_behaviour_guard.Gate.{is_text, unless}

pub record SnapshotAssessment : Type 0 where
  pub violations : List Fields
  pub attribution_invalid : List String
  pub completion_invalid : List String
  pub review : List String

-- What the loop over the audit makes: `seqs` and `events_by_request`, in their order.
pub record AuditScan : Type 0 where
  pub invalid : List String
  pub seqs : List ℕ
  pub events : List (String × Fields)

-- type(seq) is int and seq > 0
abbrev pub seq_of : Json → List ℕ
seq_of (integer (pos n)) = if ltb 0 n then n ∷ [] else []
seq_of _ = []

-- isinstance(v, str) and v
abbrev pub name_in : Json → Option String
name_in (text s) = if s == "" then none else some s
name_in _ = none

abbrev pub event_id_errors : List String → Option String → List String
event_id_errors seen none = "audit event_id is missing/invalid" ∷ []
event_id_errors seen (some event_id) =
    unless (not (contains seen event_id)) ("duplicate audit event_id: " ⧺ event_id)

abbrev pub with_name : List String → Option String → List String
with_name seen none = seen
with_name seen (some name) = name ∷ seen

abbrev pub request_ref_errors : List (String × Fields) → Option String → List String
request_ref_errors events none = "audit request_id is missing/invalid" ∷ []
request_ref_errors events (some request_id) = elim (lookup request_id events) [
  | none ↦ []
  | some event ↦ ("multiple audit events reference request_id: " ⧺ request_id) ∷ []
]

-- events_by_request[request_id] = item, unless it is there.
abbrev pub with_event : List (String × Fields) → Option String → Fields → List (String × Fields)
with_event events none event = events
with_event events (some request_id) event = elim (lookup request_id events) [
  | none ↦ events ++ (request_id, event) ∷ []
  | some earlier ↦ events
]

unfoldable pub event_errors : List String → List (String × Fields) → Fields → List String
event_errors seen events event =
    unless (not (is_empty (seq_of (get "seq" event)))) "audit event sequence is invalid"
    ++ (event_id_errors seen (name_in (get "event_id" event))
        ++ (request_ref_errors events (name_in (get "request_id" event))
            ++ (unless (is_text "database_write" (get "kind" event)) "audit event kind is invalid"
                ++ (unless (is_text "record_write" (get "operation" event))
                      "audit event operation is invalid"
                    ++ unless (is_text "candidate_app" (get "principal" event))
                        "audit event principal is invalid"))))

-- for item in audit, with the identifiers and the events so far.
unfoldable pub scan_audit : List String → List (String × Fields) → Items → AuditScan
unfolding event_errors
scan_audit seen events nil = record { invalid = []; seqs = []; events = events }
scan_audit seen events (cons item items) = elim (as_object item) [
  | none ↦
      let rest = scan_audit seen events items in
      record rest { invalid = "audit contains non-object event" ∷ rest.invalid }
  | some event ↦
      let rest =
        scan_audit (with_name seen (name_in (get "event_id" event)))
          (with_event events (name_in (get "request_id" event)) event) items in
      record {
        invalid = event_errors seen events event ++ rest.invalid;
        seqs = seq_of (get "seq" event) ++ rest.seqs;
        events = rest.events;
      }
]

-- What the loop over the requests makes; `requests` is `requests_by_id`.
pub record RequestScan : Type 0 where
  pub attribution : List String
  pub completion : List String
  pub review : List String
  pub requests : List (String × Fields)

abbrev no_requests : RequestScan
no_requests = record { attribution = []; completion = []; review = []; requests = [] }

abbrev pub add_attribution : List String → RequestScan → RequestScan
add_attribution messages scan = record scan { attribution = messages ++ scan.attribution }

-- The state of a request, before the rest of the loop.
unfoldable pub add_state : String → Json → RequestScan → RequestScan
add_state request_id (text state) scan =
    if state == "COMMITTED"
    then scan
    else if state == "ADMITTED"
    then record scan {
      completion = ("request did not reach terminal state: " ⧺ request_id) ∷ scan.completion;
    }
    else if state == "REJECTED"
    then record scan { review = ("trusted fixture rejected request: " ⧺ request_id) ∷ scan.review }
    else if state == "ROLLED_BACK" || state == "FAILED"
    then record scan {
      completion = ("request completed non-successfully: " ⧺ request_id) ∷ scan.completion;
    }
    else add_attribution (("request state is missing/invalid: " ⧺ request_id) ∷ []) scan
add_state request_id _ scan =
    add_attribution (("request state is missing/invalid: " ⧺ request_id) ∷ []) scan

unfoldable pub add_request : String → String → Fields → RequestScan → RequestScan
unfolding add_state
add_request attempt_id request_id request scan =
    add_attribution
      (unless (is_text attempt_id (get "attempt_id" request))
          ("request attempt_id mismatch: " ⧺ request_id)
        ++ unless (is_text "record_write" (get "operation" request))
            ("request operation is invalid: " ⧺ request_id))
      (add_state request_id (get "state" request)
        (record scan { requests = (request_id, request) ∷ scan.requests }))

-- for request in requests, with the identifiers so far.
unfoldable pub scan_requests : String → List String → Items → RequestScan
unfolding add_request
scan_requests attempt_id seen nil = no_requests
scan_requests attempt_id seen (cons item items) = elim (as_object item) [
  | none ↦
      add_attribution ("request ledger contains non-object item" ∷ [])
        (scan_requests attempt_id seen items)
  | some request ↦ elim (name_in (get "request_id" request)) [
    | none ↦
        add_attribution ("request_id is missing/invalid" ∷ []) (scan_requests attempt_id seen items)
    | some request_id ↦ elim (contains seen request_id) [
      | true ↦
          add_attribution (("duplicate request_id: " ⧺ request_id) ∷ [])
            (scan_requests attempt_id seen items)
      | false ↦
          add_request attempt_id request_id request
            (scan_requests attempt_id (request_id ∷ seen) items)
    ]
  ]
]

abbrev pub is_committed : Fields → Bool
is_committed request = is_text "COMMITTED" (get "state" request)

abbrev pub event_request_errors : String → Option Fields → List String
event_request_errors request_id none =
    ("audit event references unknown request_id: " ⧺ request_id) ∷ []
event_request_errors request_id (some request) =
    unless (is_committed request) ("audit event contradicts request state: " ⧺ request_id)

-- for request_id in events_by_request
unfoldable pub cross_events : List (String × Fields) → List (String × Fields) → List String
cross_events requests [] = []
cross_events requests ((request_id, event) ∷ rest) =
    event_request_errors request_id (lookup request_id requests) ++ cross_events requests rest

abbrev pub request_event_errors : String → Bool → Option Fields → List String
request_event_errors request_id true none =
    ("committed request is missing audit event: " ⧺ request_id) ∷ []
request_event_errors request_id false (some event) =
    ("non-committed request has audit event: " ⧺ request_id) ∷ []
request_event_errors request_id _ _ = []

-- for request_id, request in requests_by_id.items()
unfoldable pub cross_requests : List (String × Fields) → List (String × Fields) → List String
cross_requests events [] = []
cross_requests events ((request_id, request) ∷ rest) =
    request_event_errors request_id (is_committed request) (lookup request_id events)
    ++ cross_requests events rest

abbrev pub event_of : Bool → Option Fields → List Fields
event_of true (some event) = event ∷ []
event_of _ _ = []

-- The events of the committed requests.
unfoldable pub committed_events : List (String × Fields) → List (String × Fields) → List Fields
committed_events events [] = []
committed_events events ((request_id, request) ∷ rest) =
    event_of (is_committed request) (lookup request_id events) ++ committed_events events rest

abbrev pub count : Items → ℕ
count nil = 0
count (cons item items) = suc (count items)

-- seqs == list(range(start, start + n))
unfoldable pub is_range : ℕ → ℕ → List ℕ → Bool
is_range start zero [] = true
is_range start (suc n) (x ∷ xs) = eqb x start && is_range (start + 1) n xs
is_range start _ _ = false
