-- ===== src/Engine/Drift.antt =====
-- `_check_temporal_integrity` of src/mcp_behaviour_guard/engine.py: sessions with the target, each
-- with calls of the driver tool and snapshots of the metadata between them. The snapshots' files and
-- the delays are not modelled; an error is noted, not kept.
use mcp_behaviour_guard.Prelude.{
  ℕ, zero, suc, ◌+◌, String, Bool, true, false, not, ◌&&◌, ◌||◌, Option, none, some, eqb,
  if◌then◌else◌, [],
}
use Prim.Native.String.{◌++◌ as ◌⧺◌}
use mcp_behaviour_guard.Json.{Json, Fields}
use mcp_behaviour_guard.Engine.State.{
  ◌>>◌, GuardEngine, Guard, ◌>>=◌, return, add_finding, outside_call, item_or_throw,
}
use mcp_behaviour_guard.Temporal.{compare_metadata_snapshots}
use mcp_behaviour_guard.SavedRun.Finding.{
  Severity, Status, error, high, not_required, failed, medium, passed, info,
}
use mcp_behaviour_guard.Models.{TemporalIntegritySpec, Finding, lookup}
use mcp_behaviour_guard.Client.{ClientCall, invoke_on_session}
use mcp_behaviour_guard.Engine.Invoke.{tool_invocation_enabled, lab_skip}
use mcp_behaviour_guard.Engine.Recording.{record_invocation}
use mcp_behaviour_guard.Engine.Effects.{nonempty_name, or_first}
use mcp_behaviour_guard.Engine.Access.{is_true}

-- The variables of the loops. `first_drift` is the session and the call after which it was seen.
pub record Watch : Type 0 where
  pub reference : Option Fields
  pub first_drift : Option (ℕ × ℕ)
  pub has_errors : Bool
  pub checkpoints : ℕ
  pub stop_requested : Bool

abbrev pub first_watch : Watch
first_watch = record {
  reference = none;
  first_drift = none;
  has_errors = false;
  checkpoints = 0;
  stop_requested = false;
}

abbrev pub add_error : Watch → Watch
add_error watch = record watch { has_errors = true }

abbrev pub is_some {ℓ} : {A : Type ℓ} → Option A → Bool
is_some none = false
is_some (some a) = true

abbrev pub or_this {ℓ} : {A : Type ℓ} → Option A → A → Option A
or_this none a = some a
or_this (some old) a = some old

abbrev pub or_snapshot : Option Fields → Fields → Fields
or_snapshot none snapshot = snapshot
or_snapshot (some reference) snapshot = reference

module _ (stable_hash : Json → String) (stop_on_first : Bool) where
  abbrev pub drifted : Option Fields → Fields → Bool
  drifted reference snapshot =
      (compare_metadata_snapshots stable_hash (or_snapshot reference snapshot)
        snapshot).drift_detected

  -- The first snapshot of a session: the first of all is the reference. A drift is noted, and may
  -- stop the run, only if it is the first.
  unfoldable pub note_initial : ℕ → Fields → Watch → Watch
  unfolding compare_metadata_snapshots
  note_initial session snapshot watch =
      let seen = record watch {
        reference = or_this watch.reference snapshot;
        checkpoints = watch.checkpoints + 1;
      } in
      if drifted watch.reference snapshot && not (is_some watch.first_drift)
      then record seen { first_drift = some (session, 0); stop_requested = stop_on_first }
      else seen

  -- A snapshot after a call: any drift may stop the run.
  unfoldable pub note_current : ℕ → ℕ → Fields → Watch → Watch
  unfolding compare_metadata_snapshots
  note_current session call snapshot watch =
      let seen = record watch { checkpoints = watch.checkpoints + 1 } in
      if drifted watch.reference snapshot
      then record seen {
        first_drift = or_this watch.first_drift (session, call);
        stop_requested = stop_on_first;
      }
      else seen

unfoldable pub temporal_status : Watch → Severity → Status × Severity
temporal_status watch severity =
    if not (is_some watch.reference)
    then (error, high)
    else if is_some watch.first_drift
    then (failed, severity)
    else if watch.has_errors
    then (error, medium)
    else (passed, info)

module _ {World : Type 0} (guard : GuardEngine World) where
  abbrev pub temporal : TemporalIntegritySpec
  temporal = guard.contract.temporal_integrity

  module _ (identity_name driver_name : String) where
    -- f"{test_id}-S{session_number:02d}-C{call_number:02d}"
    abbrev pub driver_test_id : ℕ → ℕ → String
    driver_test_id session call =
        "TEMPORAL-METADATA-001-S"
        ⧺ (guard.library.two_digits session ⧺ ("-C" ⧺ guard.library.two_digits call))

    abbrev pub driver_call : ℕ → ℕ → ClientCall
    driver_call session call = record {
      test_id = driver_test_id session call;
      tool = driver_name;
      identity_name = identity_name;
      arguments = temporal.driver_arguments;
      denial_error_markers = [];
      meta = none;
    }

    abbrev pub take_snapshot : ℕ → ℕ → Watch → Option Fields → Watch
    take_snapshot session call watch none = add_error watch
    take_snapshot session call watch (some snapshot) =
        note_current guard.library.stable_hash temporal.stop_on_first_drift session call snapshot
          watch

    -- The loop over the calls of a session, with the calls that are left and the number of the next
    -- one. A failed snapshot leaves the session, as an exception does.
    unfoldable pub call_driver : ℕ → ℕ → ℕ → Watch → Guard World Watch
    unfolding note_current record_invocation invoke_on_session
    call_driver zero number session watch = return watch
    call_driver (suc left) number session watch = do
      reply ← outside_call (guard.outside.call_on_session (driver_call session number))
      let invocation =
          invoke_on_session guard.library.folding (driver_call session number) none reply
      record_invocation guard none invocation
      if not (is_true invocation.allowed)
          then return (add_error watch)
          else if temporal.rediscover_after_each_call || eqb left 0
          then (outside_call guard.outside.snapshot >>= λ snapshot.
              let seen = take_snapshot session number watch snapshot in
              if seen.stop_requested || not (is_some snapshot)
              then return seen
              else call_driver left (number + 1) session seen)
          else call_driver left (number + 1) session watch

    abbrev pub calls_unless_stopped : ℕ → Watch → Guard World Watch
    calls_unless_stopped session watch =
        if watch.stop_requested
        then return watch
        else call_driver temporal.retests_per_session 1 session watch

    abbrev pub with_initial : ℕ → Watch → Option Fields → Guard World Watch
    with_initial session watch none = return (add_error watch)
    with_initial session watch (some snapshot) =
        calls_unless_stopped session (
          note_initial guard.library.stable_hash temporal.stop_on_first_drift session snapshot
            watch)

    abbrev pub after_close : Watch → Bool → Watch
    after_close watch raised = if raised then add_error watch else watch

    abbrev pub in_session : ℕ → Watch → Option (Unit {0}) → Guard World Watch
    in_session session watch none = return (add_error watch)
    in_session session watch (some opened) = do
      snapshot ← outside_call guard.outside.snapshot
      seen ← with_initial session watch snapshot
      raised ← outside_call guard.outside.close_session
      return (after_close seen raised)

    -- The loop over the sessions.
    unfoldable pub watch_sessions : ℕ → ℕ → Watch → Guard World Watch
    unfolding call_driver note_initial
    watch_sessions zero session watch = return watch
    watch_sessions (suc left) session watch = do
      opened ← outside_call (guard.outside.open_session identity_name)
      seen ← in_session session watch opened
      if seen.stop_requested then return seen else watch_sessions left (session + 1) seen

  abbrev pub temporal_finding : Status × Severity → Finding
  temporal_finding (status, severity) = record {
    test_id = "TEMPORAL-METADATA-001";
    category = "temporal_integrity";
    status = status;
    severity = severity;
    observation = not_required;
  }

  unfoldable pub watch_as : String → Option String → Guard World Unit
  unfolding watch_sessions temporal_status
  watch_as driver_name none = add_finding (temporal_finding (error, high))
  watch_as driver_name (some identity_name) = do
    identity ← item_or_throw (lookup identity_name guard.contract.identities)
    watch ← watch_sessions identity_name driver_name temporal.sessions 1 first_watch
    add_finding (temporal_finding (temporal_status watch temporal.severity))

  unfoldable pub watch_driver : String → Guard World Unit
  unfolding watch_as tool_invocation_enabled
  watch_driver driver_name = do
    driver ← item_or_throw (lookup driver_name guard.contract.tools)
    if not (tool_invocation_enabled guard driver)
        then add_finding (lab_skip "TEMPORAL-METADATA-001" "temporal_integrity")
        else watch_as driver_name
            (or_first (nonempty_name temporal.identity) driver.permitted_identities)

  abbrev pub watch_if_named : Option String → Guard World Unit
  watch_if_named none = return tt
  watch_if_named (some driver_name) = watch_driver driver_name

  unfoldable pub check_temporal_integrity : Guard World Unit
  unfolding watch_driver
  check_temporal_integrity =
      if temporal.enabled then watch_if_named (nonempty_name temporal.driver_tool) else return tt
