-- ===== src/Gate/Snapshot/Ledger.antt =====
-- What the loops of `_validate_snapshot` of assurance/phase2/gate/gate.py leave unsaid.
use mcp_behaviour_guard.Prelude.{
  String, Bool, true, false, not, ◌≡◌, refl, Option, none, some, List, [], ◌∷◌, ◌++◌, arith, any,
  ◌==◌, Bool-cases, inl, inr, sym, is_empty, contains, Option-cases, ◌≢◌, ◌∙◌,
}
use mcp_behaviour_guard.Prelude.Option
use mcp_behaviour_guard.Json.{
  Json, text, Items, nil, cons, Fields, boolean, integer, float, array, object, null,
}
use mcp_behaviour_guard.SavedRun.Value.{get, as_object, json_eq}
use mcp_behaviour_guard.Models.{lookup}
use mcp_behaviour_guard.Gate.{is_text, unless}
use mcp_behaviour_guard.Gate.Scan.{
  scan_audit, scan_requests, event_errors, add_state, add_request, is_committed, cross_events,
  cross_requests, committed_events, with_event, with_name, name_in, RequestScan,
  request_event_errors, event_of, seq_of, event_id_errors, request_ref_errors,
}

pub append-nil : {A : Type 0} (xs ys : List A) → xs ++ ys ≡ [] → (xs ≡ []) × (ys ≡ [])
append-nil [] ys h = (refl, h)
append-nil (x ∷ xs) ys h = ground arith

pub unless-nil : (test : Bool) (message : String) → unless test message ≡ [] → test ≡ true
unless-nil true message h = refl
unless-nil false message h = ground arith

uncommitted :
    (request_id : String) (committed : Bool) (event : Option Fields)
    → request_event_errors request_id committed event ≡ []
    → event_of committed event ≡ []
    → committed ≡ false
uncommitted request_id false event agree quiet = refl
uncommitted request_id true none agree quiet = ground arith
uncommitted request_id true (some event) agree quiet = ground arith

-- Requests that agree with the audit, and give no violation, are not committed.
pub none_committed :
    (events requests : List (String × Fields))
    → cross_requests events requests ≡ []
    → committed_events events requests ≡ []
    → any (λ r. is_committed r.1) requests ≡ false
unfolding cross_requests committed_events
none_committed events [] agree quiet = refl
none_committed events ((request_id, request) ∷ rest) agree quiet =
    let event = lookup request_id events in
    let (here, later) =
      append-nil (request_event_errors request_id (is_committed request) event)
        (cross_requests events rest) agree in
    let (no_event, quiet_rest) =
      append-nil (event_of (is_committed request) event) (committed_events events rest) quiet in
    ground (
      arith,
      uncommitted request_id (is_committed request) (lookup request_id events) here no_event,
      none_committed events rest later quiet_rest,
    )

lookup-any :
    (request_id : String) (request : Fields) (requests : List (String × Fields))
    → lookup request_id requests ≡ some request
    → is_committed request ≡ true
    → any (λ r. is_committed r.1) requests ≡ true
lookup-any request_id request [] found committed = ground arith
lookup-any request_id request ((k, r) ∷ rest) found committed =
    elim (Bool-cases (k == request_id)) [
      | inl same ↦ rw (Option.some-injective r request (rw same at found), committed) refl
      | inr apart ↦
          rw (lookup-any request_id request rest (rw apart at found) committed) (ground arith)
    ]

-- An audit whose requests are all uncommitted has no event.
pub no_events :
    (requests events : List (String × Fields))
    → cross_events requests events ≡ []
    → any (λ r. is_committed r.1) requests ≡ false
    → events ≡ []
unfolding cross_events
no_events requests [] agree quiet = refl
no_events requests ((request_id, event) ∷ rest) agree quiet =
    elim (Option-cases (lookup request_id requests)) [
      | inl e ↦ ground arith
      | inr (request, found) ↦ ground (arith, lookup-any request_id request requests found)
    ]

-- The events found so far stay.
with_event_grows :
    (event : String × Fields) (events : List (String × Fields)) (name : Option String)
    (found : Fields)
    → (more : List (String × Fields)) × (with_event (event ∷ events) name found ≡ event ∷ more)
with_event_grows event events none found = (events, refl)
with_event_grows event events (some request_id) found =
    elim (Option-cases (lookup request_id (event ∷ events))) [
      | inl e ↦ (events ++ (request_id, found) ∷ [], rw (e, with_event) refl)
      | inr (earlier, e) ↦ (events, rw (e, with_event) refl)
    ]

scan_audit_object :
    (seen : List String) (events : List (String × Fields)) (item : Json) (items : Items)
    (event : Fields)
    → as_object item ≡ some event
    → ((scan_audit seen events (cons item items)).invalid
        ≡ event_errors seen events event
          ++ (scan_audit
              (with_name seen (name_in (get "event_id" event)))
              (with_event events (name_in (get "request_id" event)) event)
              items).invalid)
      × ((scan_audit seen events (cons item items)).events
          ≡ (scan_audit
              (with_name seen (name_in (get "event_id" event)))
              (with_event events (name_in (get "request_id" event)) event)
              items).events)
unfolding scan_audit
scan_audit_object seen events item items event o =
    (rw (o, scan_audit) refl, rw (o, scan_audit) refl)

scan_audit_grows :
    (seen : List String) (event : String × Fields) (events : List (String × Fields)) (items : Items)
    → (scan_audit seen (event ∷ events) items).events ≢ []
unfolding scan_audit
scan_audit_grows seen event events nil = λ e. ground arith
scan_audit_grows seen event events (cons item items) = elim (Option-cases (as_object item)) [
  | inl o ↦ λ e. scan_audit_grows seen event events items (rw (o, scan_audit) at e)
  | inr (found, o) ↦
      let (more, grown) = with_event_grows event events (name_in (get "request_id" found)) found in
      λ e.
        scan_audit_grows (with_name seen (name_in (get "event_id" found))) event more items
          (rw grown at ((sym (scan_audit_object seen (event ∷ events) item items found o).1) ∙ e))
]

request_ref-named :
    (events : List (String × Fields)) (name : Option String)
    → request_ref_errors events name ≡ []
    → (request_id : String) × (name ≡ some request_id)
request_ref-named events none h = absurd (ground arith)
request_ref-named events (some request_id) h = (request_id, refl)

event_errors-named :
    (seen : List String) (events : List (String × Fields)) (event : Fields)
    → event_errors seen events event ≡ []
    → (request_id : String) × (name_in (get "request_id" event) ≡ some request_id)
unfolding event_errors
event_errors-named seen events event h =
    let (_, after_seq) =
      append-nil
        (unless (not (is_empty (seq_of (get "seq" event)))) "audit event sequence is invalid") _
        h in
    let (_, after_id) =
      append-nil (event_id_errors seen (name_in (get "event_id" event))) _ after_seq in
    let (clean, _) =
      append-nil (request_ref_errors events (name_in (get "request_id" event))) _ after_id in
    request_ref-named events (name_in (get "request_id" event)) clean

-- An audit without an error and without an event is empty.
pub no_audit :
    (items : Items)
    → (scan_audit [] [] items).invalid ≡ []
    → (scan_audit [] [] items).events ≡ []
    → items ≡ nil
unfolding scan_audit
no_audit nil h e = refl
no_audit (cons item items) h e = elim (Option-cases (as_object item)) [
  | inl o ↦ ground arith
  | inr (found, o) ↦
      let (errors, events) = scan_audit_object [] [] item items found o in
      let clean = (append-nil (event_errors [] [] found) _ (sym errors ∙ h)).0 in
      let (request_id, named) = event_errors-named [] [] found clean in
      absurd (scan_audit_grows _ (request_id, found) [] items (rw named at (sym events ∙ e)))
]

-- A state of which nothing is said is COMMITTED.
add_state-clean :
    (request_id : String) (state : Json) (scan : RequestScan)
    → (add_state request_id state scan).attribution ≡ []
    → (add_state request_id state scan).completion ≡ []
    → (add_state request_id state scan).review ≡ []
    → is_text "COMMITTED" state ≡ true
unfolding add_state json_eq
add_state-clean request_id (text s) scan a c r = ground arith
add_state-clean request_id null scan a c r = ground arith
add_state-clean request_id (boolean b) scan a c r = ground arith
add_state-clean request_id (integer n) scan a c r = ground arith
add_state-clean request_id (float x) scan a c r = ground arith
add_state-clean request_id (array xs) scan a c r = ground arith
add_state-clean request_id (object fs) scan a c r = ground arith

add_state-requests :
    (request_id : String) (state : Json) (scan : RequestScan)
    → (add_state request_id state scan).requests ≡ scan.requests
unfolding add_state
add_state-requests request_id state scan = ground arith

-- A request of which nothing is said is committed.
recorded_request :
    (attempt_id request_id : String) (request : Fields) (scan : RequestScan)
    → (add_request attempt_id request_id request scan).attribution ≡ []
    → (add_request attempt_id request_id request scan).completion ≡ []
    → (add_request attempt_id request_id request scan).review ≡ []
    → any (λ r. is_committed r.1) (add_request attempt_id request_id request scan).requests ≢ false
unfolding add_request
recorded_request attempt_id request_id request scan a c r quiet =
    let with_this = record scan { requests = (request_id, request) ∷ scan.requests } in
    let state = get "state" request in
    let committed =
      add_state-clean request_id state with_this
        (append-nil _ (add_state request_id state with_this).attribution a).1 c r in
    ground (arith, add_state-requests request_id state with_this)

-- A ledger without a remark and without a committed request is empty.
pub no_requests_made :
    (attempt_id : String) (seen : List String) (items : Items)
    → (scan_requests attempt_id seen items).attribution ≡ []
    → (scan_requests attempt_id seen items).completion ≡ []
    → (scan_requests attempt_id seen items).review ≡ []
    → any (λ r. is_committed r.1) (scan_requests attempt_id seen items).requests ≡ false
    → items ≡ nil
unfolding scan_requests
no_requests_made attempt_id seen nil a c r quiet = refl
no_requests_made attempt_id seen (cons item items) a c r quiet =
    elim (Option-cases (as_object item)) [
      | inl o ↦ ground arith
      | inr (request, o) ↦ elim (Option-cases (name_in (get "request_id" request))) [
        | inl n ↦ ground arith
        | inr (request_id, n) ↦ elim (Bool-cases (contains seen request_id)) [
          | inl again ↦ ground arith
          | inr new ↦ absurd (
              recorded_request attempt_id request_id request
                (scan_requests attempt_id (request_id ∷ seen) items)
                (rw (o, n, new, scan_requests) at a) (rw (o, n, new, scan_requests) at c)
                (rw (o, n, new, scan_requests) at r) (rw (o, n, new, scan_requests) at quiet))
        ]
      ]
    ]
