-- ===== src/Engine/Tests.antt =====
-- A contract of two tools, one of which deletes, and a target that notes what is called, for the
-- theorems on src/mcp_behaviour_guard/engine.py.
use mcp_behaviour_guard.Prelude.{
  ◌==◌, ◌≤◌, ◌+◌, String, true, false, ◌≡◌, refl, List, [], ◌∷◌, none, some, all, length, ◌≢◌,
}
use mathlib.Core.List.{Memᴰ}
use mcp_behaviour_guard.Json.{text, null, end}
use mcp_behaviour_guard.SavedRun.Finding.{high}
use mcp_behaviour_guard.Models.{Contract, IdentitySpec, ToolContract, filesystem_write}
use mcp_behaviour_guard.Client.{answered, session_response, ToolResponse}
use mcp_behaviour_guard.Engine.State.{
  ◌>>=◌, GuardEngine, Library, Outside, outside_call, change, return, read, item_or_throw,
  add_finding, raise, key_error,
}
use mcp_behaviour_guard.Engine.Observing.{events_of}
use mcp_behaviour_guard.Engine.Drift.{check_temporal_integrity}
use mcp_behaviour_guard.Engine.Run.{new_engine_state, run_with_ownership, discover_tools}
use mcp_behaviour_guard.Engine.Enabled.{is_callable, Respects}
use mcp_behaviour_guard.Engine.Enabled.Run.{
  run_with_ownership-CallsEnabled, run_with_ownership-raises,
}
use mcp_behaviour_guard.Engine.Bounded.{call_budget, check_temporal_integrity-AtMost}
use mcp_behaviour_guard.Engine.Discovery.{Discovered, discover_tools-Discovered}
use mcp_behaviour_guard.Engine.Claims.{effect_claims}
use mcp_behaviour_guard.Models.References.{references_exist, missing_names, unknown_driver_tool}
use mcp_behaviour_guard.Prelude.Table.{fetch_all}

abbrev alice : IdentitySpec
alice = record {
  headers = [];
  environment = [];
  tenant = some "acme";
  role = none;
  description = none;
}

abbrev search_tool : ToolContract
search_tool = record {
  permitted_identities = "alice" ∷ [];
  probe_arguments = end;
  denial_error_markers = "denied" ∷ [];
  side_effect_identity = none;
  read_only = true;
  allowed_network_destinations = some ("api.example.com" ∷ []);
  allowed_filesystem_writes = none;
  allowed_process_commands = none;
  forbidden_side_effects = [];
  tenant_probes = [];
  policy_probes = [];
  replay_probe = none;
}

abbrev pub delete_tool : ToolContract
delete_tool = record search_tool {
  read_only = false;
  forbidden_side_effects = filesystem_write ∷ [];
}

abbrev demo_contract : Contract
demo_contract = record {
  server_environment = [];
  identities = ("alice", alice) ∷ [];
  tools = ("search", search_tool) ∷ ("delete", delete_tool) ∷ [];
  session_tests = [];
  safety = record { destructive_tests = true; require_lab_mode = true };
  temporal_integrity = record {
    enabled = true;
    identity = none;
    driver_tool = some "search";
    driver_arguments = end;
    sessions = 2;
    retests_per_session = 2;
    rediscover_after_each_call = false;
    stop_on_first_drift = true;
    monitor_tools = true;
    monitor_prompts = false;
    monitor_resources = false;
    severity = high;
  };
}

abbrev pub demo_library : Library
demo_library = record {
  matching = record { fnmatch = λ value pattern. value == pattern; str = λ v. "" };
  folding = record { dumps = λ v. ""; casefold = λ s. s };
  upper_dashed = λ s. s;
  json_text = λ v. "";
  two_digits = λ n. "01";
  stable_hash = λ v. "";
  getenv = λ name. "";
  resolve = λ s. some ("srv" ∷ s ∷ []);
  resolve_root = λ s. some (s ∷ []);
  filters = record {
    sensitive_key = λ name. false;
    scrub = λ s. s;
    replace = λ s old new. s;
    lower = λ s. s;
    skip_seven = λ s. s;
  };
}

abbrev demo_answer : ToolResponse
demo_answer = record {
  is_error = false;
  structured_content = some (text "ok");
  content = [];
  dump = null;
}

-- The world is the list of the tools that were called, the last one first.
abbrev demo_outside : Outside (List String)
demo_outside = record {
  exchange = λ call called. (answered none demo_answer, call.tool ∷ called);
  begin = λ handle called. (none, called);
  collect = λ handle called. (events_of [], called);
  fresh_id = λ called. ("id", called);
  list_tools = λ name called. (some [], called);
  open_session = λ name called. (some tt, called);
  snapshot = λ called. (some end, called);
  call_on_session = λ call called. (session_response demo_answer, call.tool ∷ called);
  close_session = λ called. (false, called);
}

abbrev pub demo : GuardEngine (List String)
demo = record {
  contract = demo_contract;
  lab_mode = false;
  run_id = "run-1";
  secrets = [];
  observers = [];
  outside = demo_outside;
  library = demo_library;
}

abbrev CalledOnly : List String → Type 0
CalledOnly called = all (is_callable demo) called ≡ true

demo_respects : Respects demo CalledOnly
demo_respects = record {
  exchange = λ call h called q. rw (h, q) refl;
  call_on_session = λ call h called q. rw (h, q) refl;
  begin = λ handle called q. q;
  collect = λ handle called q. q;
  fresh_id = λ called q. q;
  list_tools = λ name called q. q;
  open_session = λ name called q. q;
  snapshot = λ called q. q;
  close_session = λ called q. q;
}

run_with_ownership-CallsEnabled_example :
    let after = ((run_with_ownership demo).run (new_engine_state [])).1 in
    CalledOnly after.world × (all (λ i. is_callable demo i.tool) after.invocations ≡ true)
run_with_ownership-CallsEnabled_example =
    run_with_ownership-CallsEnabled demo CalledOnly demo_respects [] refl

check_temporal_integrity-AtMost_example :
    length ((check_temporal_integrity demo).run (new_engine_state [])).1.invocations
    ≤ call_budget demo + length (new_engine_state {World = List String} []).invocations
check_temporal_integrity-AtMost_example = check_temporal_integrity-AtMost demo (new_engine_state [])

discover_tools-Discovered_example :
    Discovered demo (new_engine_state []) ((discover_tools demo).run (new_engine_state []))
discover_tools-Discovered_example =
    discover_tools-Discovered demo "alice" alice (Memᴰ.head refl) (λ called. refl)
      (new_engine_state [])

demo_accepted : references_exist demo_contract ≡ none
unfolding references_exist missing_names fetch_all
demo_accepted = refl

run_with_ownership-raises_example :
    ((run_with_ownership demo).run (new_engine_state [])).0 ≢ raise key_error
run_with_ownership-raises_example = run_with_ownership-raises demo [] demo_accepted

-- A contract whose driver is no tool is refused.
undeclared_driver :
    references_exist (record demo_contract {
      temporal_integrity = record demo_contract.temporal_integrity { driver_tool = some "gone" };
    })
    ≡ some unknown_driver_tool
unfolding references_exist missing_names fetch_all
undeclared_driver = refl

-- The run calls the tool that reads, four times in sessions and once for its access, and never the
-- one that deletes.
demo_calls :
    ((run_with_ownership demo).run (new_engine_state [])).1.world
    ≡ "search" ∷ "search" ∷ "search" ∷ "search" ∷ "search" ∷ []
unfolding run_with_ownership new_engine_state ◌>>=◌ outside_call change return read item_or_throw
    add_finding effect_claims
demo_calls = refl
