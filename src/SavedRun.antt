-- ===== src/SavedRun.antt =====
-- The offline comparison of two saved runs, `compare_saved_runs` and what it calls in
-- src/mcp_behaviour_guard/baseline.py, and the exit status of `baseline_compare_saved` in
-- src/mcp_behaviour_guard/cli.py.
pub mod Error
pub mod Value
pub mod Finding
pub mod Conformance
pub mod Comparability
pub mod Inventory
pub mod Compare
pub mod Receipt
pub mod Load
pub mod Exit
pub mod Tests
