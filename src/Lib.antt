-- ===== src/Lib.antt =====
-- mcp-behaviour-guard watches what an MCP server does while its tools are called. This library
-- models the parts of the program that decide something: the trusted fixture that records what an
-- application under test wrote, the attribution of observed events to the guard's own operations,
-- the drift of a target's metadata, the engine that runs the checks of a contract against a target,
-- the comparison of two saved runs, and the gate that decides on a release from all of these.
--
-- The parts and their files:
-- * assurance/phase2/fixture/store.py, the class `FixtureStore`, in Fixture. The database file is
--   the record `Database` of Fixture/Schema.antt, one list for each table in the order of its rows;
--   `fixture_meta` is the one field `active_attempt_id`. Each method is a function of the same name
--   from a database to its result or exception and the database that it leaves: Lifecycle
--   (`bootstrap`, `create_attempt`, `open_attempt`, `close_attempt`, `abort_recovery`), Write
--   (`business_write`), Observe (`read_record`, `reset_observer_cursor`, `observer_events`) and
--   Final (`snapshot`, `final_snapshot`, `finalize_attempt`), over the guards of Query and the hash
--   chain of Ledger. `BEGIN IMMEDIATE` makes the writing transactions exclusive, so that threads and
--   processes are sequences of method calls: the steps of Fixture/System.antt, in any order and with
--   restarts between them. Fixture/Invariant.antt says when a database is well formed.
-- * src/mcp_behaviour_guard/correlation.py in Correlation, with `SideEffectEvent` and
--   `ObservationScope` of src/mcp_behaviour_guard/observers/base.py. An observer is what `getattr`
--   gives of it.
-- * src/mcp_behaviour_guard/temporal.py in Temporal: the drift between two snapshots of a target's
--   metadata, family by family, and its summary.
-- * src/mcp_behaviour_guard/baseline.py, `compare_saved_runs` and all that it calls, in SavedRun:
--   Load reads the two directories, with Receipt, Finding and Inventory for the three files; Compare
--   compares what it loaded, with Comparability for the contexts and Conformance for the verdicts.
--   The status of `baseline_compare_saved` in src/mcp_behaviour_guard/cli.py is in Exit.
-- * assurance/phase2/gate/gate.py in Gate. A file is its SHA-256 and what `json.loads` makes of it; a
--   function that may raise returns a `Checked`. Matrix holds a report against the expected findings,
--   Scan and Snapshot read the fixture's final evidence, Context binds a run to its files, Decision and
--   Evaluate make the decision on a candidate from these and from SavedRun, and Promote the approval of
--   a reference.
-- * src/mcp_behaviour_guard/models.py in Models: the contract, the references between its parts that
--   `references_exist` checks, the records and findings, and the verdict of a run. get_path of
--   src/mcp_behaviour_guard/util.py is in Util,
--   src/mcp_behaviour_guard/evidence.py in Evidence, and what src/mcp_behaviour_guard/client.py makes
--   of one call (`invoke`, `invoke_on_session`) in Client.
-- * src/mcp_behaviour_guard/engine.py, the class `GuardEngine`, in Engine. The fields that change
--   are the record `EngineState` of Engine/State.antt; a method is a `Guard`, a function from that
--   state to a result or an exception and the state that it leaves. The target, the observers and
--   `uuid4` are the functions of the record `Outside` on a world of any type. Claims has the effects
--   that a tool's contract claims, Observing, Recording and Invoke the calls, their records and their
--   observation; Access, Effects, Tenant, Policy, Sessions, Replay and Drift have one check each, Run
--   the whole run in its order. Enabled follows which tools a run may call, through every check.
-- * Prelude has the lists, tables and Boolean tests that they share, Json the values of `json`.
--
-- Parameters of the model, about which nothing is assumed: SHA-256, the JSON text of a value and
-- the reading of such a text in the fixture (the record `Platform`), `stable_hash` in the comparisons, `str` of what is no text in the
-- gate, the regular expressions and
-- text methods of the redaction (`Filters`), and what the engine takes from `fnmatch`, `json`, `os`
-- and `pathlib` (`Library`). In the fixture, identifiers from `uuid4`, tokens and times are arguments
-- of the calls that draw them, and equal ones may be drawn twice: the violated constraint is an error
-- of the model. A write barrier is its stage and whether it is
-- released in time. Files do not change while a run is loaded. Every loop is structural recursion on
-- what it goes through or on how often it runs, so there is no fuel; all integers are unbounded in the source.
--
-- Not modelled: what only reads the database to check its state columns, which are data types here
-- (`assert_schema_invariants`); in the comparison's result the sections that copy its inputs; error
-- messages beyond their fixed part. Of the
-- engine: the prose of a finding (title, expected, observed, evidence, remediation), the files and
-- the store, which get the same rows as the two lists, cancelled tasks, the locks that keep two runs
-- from sharing an observer, and the header that names a client's session; the calls of a replay
-- probe, which `asyncio.gather` overlaps, are made in order. Of get_path, digits beyond ASCII; of
-- the path check, a path with a null character. Of the
-- gate: the writing of its decision and of its bundle, and the labels of `source_validation`, which
-- repeat the errors. The validators of a contract apart from `references_exist` (there, the
-- independence of the observers' sources), the observers themselves, the transports, storage and
-- alerts, receipts, reports and the other commands are not modelled.
pub mod Prelude
pub mod Json
pub mod Fixture
pub mod Correlation
pub mod Temporal
pub mod SavedRun
pub mod Models
pub mod Util
pub mod Evidence
pub mod Client
pub mod Engine
pub mod Gate
