-- ===== src/Engine/Examples.antt =====
-- Single verdicts of src/mcp_behaviour_guard/engine.py, on concrete records.
use mcp_behaviour_guard.Prelude.{
  ◌&&◌, ◌||◌, ◌≤◌, ◌<◌, ◌++◌, ◌↔◌, not, true, false, ◌≡◌, refl, String, List, [], ◌∷◌, none, some,
  all, any, is_empty,
}
use mathlib.Core.List.{Memᴰ}
use mcp_behaviour_guard.Json.{text, null, end, field}
use mcp_behaviour_guard.SavedRun.Finding.{passed, failed, complete, unavailable, high}
use mcp_behaviour_guard.Models.{
  SessionIsolationTest, PolicyCheck, denied_check, response_not_contains, path_within, TenantProbe,
  ReplayProbe, InvocationRecord, deny, rejected, database_write, filesystem_write, network_request,
  Finding,
}
use mcp_behaviour_guard.Correlation.{SideEffectEvent}
use mcp_behaviour_guard.Engine.Observing.{ObserverHandle, observer_coverage, is_healthy}
use mcp_behaviour_guard.Engine.Claims.{find_claim, effect_claims, side_effect_violations}
use mcp_behaviour_guard.Engine.Claims.Meaning.{find_claim-effect_claims, ban_of, contract_ban}
use mcp_behaviour_guard.Engine.Claims.Violations.{side_effect_violations_lem, respects}
use mcp_behaviour_guard.Engine.Invoke.{ObservedCall, is_sufficient, is_complete}
use mcp_behaviour_guard.Engine.Recording.{exported_record}
use mcp_behaviour_guard.Engine.Access.{access_finding, is_allow, is_true}
use mcp_behaviour_guard.Engine.Policy.{is_deny, policy_status, path_is_within, any_violated}
use mcp_behaviour_guard.Engine.Tenant.{tenant_verdict, is_succeeded}
use mcp_behaviour_guard.Engine.Sessions.{finish_session, is_attempted}
use mcp_behaviour_guard.Engine.Replay.{replay_status}
use mcp_behaviour_guard.Engine.Coverage.{is_watched, observer_coverage_lem}
use mcp_behaviour_guard.Engine.Boundaries.{
  keeps_secret, leaks_secret, is_owned, is_foreign, tenant_verdict_lem, path_is_within_sound,
}
use mcp_behaviour_guard.Engine.Verdicts.{access_finding_lem, replay_status_lem}
use mcp_behaviour_guard.Engine.Verdicts.Policies.{policy_status_lem, is_breached}
use mcp_behaviour_guard.Engine.Verdicts.Sessions.{finish_session_lem}
use mcp_behaviour_guard.Engine.State.{done}
use mcp_behaviour_guard.Client.{occurs_in}
use mcp_behaviour_guard.Engine.Export.{exported_record-omits}
use mcp_behaviour_guard.Engine.Tests.{demo, demo_library, delete_tool}
use mcp_behaviour_guard.Engine.Run.{new_engine_state}

abbrev denied_call : InvocationRecord
denied_call = record {
  test_id = "AUTH-DELETE-BOB";
  tool = "delete";
  identity = "bob";
  arguments = field "path" (text "/srv/x") end;
  allowed = some false;
  authorization = deny;
  execution = rejected;
  response = text "denied";
  error = none;
  session_id = some "s-1";
}

abbrev denied_seen : ObservedCall
denied_seen = record { invocation = denied_call; events = []; observation = complete }

access_finding_lem_example :
    let status = (access_finding "AUTH-DELETE-BOB" false true denied_seen).status in
    ((status ≡ passed) ↔ (
      (is_sufficient complete && (false && is_allow deny || not false && (is_deny deny && true)))
      ≡ true))
    × ((status ≡ failed) ↔ ((false && is_deny deny || not false && is_allow deny) ≡ true))
access_finding_lem_example = access_finding_lem "AUTH-DELETE-BOB" false true denied_seen

abbrev once : ReplayProbe
once = record {
  arguments = end;
  attempts = 3;
  event_kind = database_write;
  event_tool = none;
  maximum_events = 1;
  minimum_events = 1;
}

replay_status_lem_example :
    ((replay_status once 1 3 complete ≡ passed)
      ↔ ((1 ≤ 1) × (1 ≤ 1) × (0 < 3) × (is_complete complete ≡ true)))
    × ((replay_status once 1 3 complete ≡ failed) ↔ (1 < 1))
replay_status_lem_example = replay_status_lem once 1 3 complete

abbrev session_test : SessionIsolationTest
session_test = record {
  id = "SESSION";
  writer_identity = "alice";
  reader_identity = "bob";
  write = record { tool = "store"; arguments = end };
  read = record { tool = "load"; arguments = end };
  marker_argument = "note";
  severity = high;
}

finish_session_lem_example :
    let leaked = occurs_in "guard-1" (demo_library.json_text (text "denied")) in
    (finding : Finding) × ((finish_session demo session_test "guard-1" denied_seen denied_seen).run
        (new_engine_state [])
      ≡ (
        done tt,
        record (new_engine_state []) {
          findings = (new_engine_state {World = List String} []).findings ++ finding ∷ [];
        },
      ))
    × (finding.test_id ≡ "SESSION")
    × ((finding.status ≡ passed) ↔ (
        (not leaked && (false && (false && (is_attempted rejected && is_sufficient complete))))
        ≡ true))
    × ((finding.status ≡ failed) ↔ (leaked ≡ true))
    × (is_sufficient finding.observation ≡ (is_sufficient complete && is_sufficient complete))
finish_session_lem_example =
    finish_session_lem demo session_test "guard-1" denied_seen denied_seen (new_engine_state [])

-- A denied call, of a probe that expects denial, forbids a text and confines a path.
abbrev denial_checks : List PolicyCheck
denial_checks =
    denied_check ∷ response_not_contains ("s3cret" ∷ []) ∷ path_within "path" ("srv" ∷ []) ∷ []

unviolated : any_violated demo_library [] denied_call denial_checks ≡ done false
unfolding any_violated
unviolated = refl

policy_status_lem_example :
    let breached = is_breached demo_library [] denied_call denial_checks in
    let status = policy_status false true denied_call true complete in
    ((status ≡ passed) ↔ (
      (not breached
        && (is_sufficient complete
            && (true && (is_deny deny && true) || not true && is_true (some false))))
      ≡ true))
    × ((status ≡ failed) ↔ (breached ≡ true))
policy_status_lem_example =
    policy_status_lem demo_library [] denied_call denial_checks true complete unviolated

abbrev log : ObserverHandle
log = record {
  observer = record { name = "log"; correlation = null; configured = null };
  observes = filesystem_write ∷ network_request ∷ [];
  complete_observes = some (filesystem_write ∷ []);
}

observer_coverage_lem_example :
    let coverage = observer_coverage (log ∷ []) [] (some (filesystem_write ∷ [])) in
    ((coverage ≡ complete) ↔ (
      (any (is_healthy []) (log ∷ []) && all (is_watched (log ∷ []) []) (filesystem_write ∷ []))
      ≡ true))
    × ((coverage ≡ unavailable) ↔ (any (is_healthy []) (log ∷ []) ≡ false))
observer_coverage_lem_example = observer_coverage_lem (log ∷ []) [] (filesystem_write ∷ [])

abbrev secret_probe : TenantProbe
secret_probe = record {
  arguments = end;
  resource_tenant_path = "tenant";
  expected_tenant = none;
  require_denial = true;
  confidentiality = some ("s3cret" ∷ []);
}

tenant_verdict_lem_example :
    let status = tenant_verdict secret_probe (some "acme") denied_call null true complete in
    let successful = is_true (some false) && is_succeeded rejected in
    ((status ≡ passed) ↔ (
      (is_sufficient complete
        && (keeps_secret (some ("s3cret" ∷ [])) (text "denied")
            && (true && (is_deny deny && true)
                || not true && (successful && is_owned (some "acme") null))))
      ≡ true))
    × ((status ≡ failed) ↔ (
        (leaks_secret (some ("s3cret" ∷ [])) (text "denied")
          || (true && is_allow deny || not true && (successful && is_foreign (some "acme") null)))
        ≡ true))
tenant_verdict_lem_example =
    tenant_verdict_lem secret_probe (some "acme") denied_call null true complete

within : path_is_within demo_library (text "x") ("srv" ∷ []) ≡ done true
unfolding path_is_within
within = refl

path_is_within_sound_example :
    (s : String) × (text "x" ≡ text s)
    × (candidate : List String) × (demo_library.resolve s ≡ some candidate)
    × (root : String) × Memᴰ root ("srv" ∷ [])
    × (parts : List String) × (demo_library.resolve_root root ≡ some parts)
    × (rest : List String) × (candidate ≡ parts ++ rest)
path_is_within_sound_example = path_is_within_sound demo_library (text "x") ("srv" ∷ []) within

exported_record-omits_example :
    exported_record demo none (record denied_call {
      arguments = field "path" (text "/srv/other") end;
      response = null;
      session_id = none;
    })
    ≡ exported_record demo none denied_call
exported_record-omits_example =
    exported_record-omits demo none denied_call (field "path" (text "/srv/other") end) null none
      refl

find_claim-effect_claims_example :
    ban_of (find_claim filesystem_write (effect_claims delete_tool))
    ≡ contract_ban delete_tool filesystem_write
find_claim-effect_claims_example = find_claim-effect_claims delete_tool filesystem_write

abbrev written : SideEffectEvent
written = record { observer = "log"; kind = filesystem_write; details = end }

side_effect_violations_lem_example :
    is_empty (side_effect_violations demo_library.matching delete_tool (written ∷ []))
    ≡ all
        (λ event. respects demo_library.matching (contract_ban delete_tool event.kind) event)
        (written ∷ [])
side_effect_violations_lem_example =
    side_effect_violations_lem demo_library.matching delete_tool (written ∷ [])
