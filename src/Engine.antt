-- ===== src/Engine.antt =====
-- src/mcp_behaviour_guard/engine.py, the checks of a run. Claims has the effects that a tool's
-- contract claims, State the engine's fields and the calls that leave the process, Observing the
-- observers of a call, Recording one call and its record, Invoke the calls of the checks; then one
-- module for each check, and Run. The other modules are about these.
pub mod Claims
pub mod Observing
pub mod State
pub mod Recording
pub mod Invoke
pub mod Access
pub mod Effects
pub mod Tenant
pub mod Policy
pub mod Sessions
pub mod Replay
pub mod Drift
pub mod Run
pub mod Coverage
pub mod Boundaries
pub mod Export
pub mod Bounded
pub mod Discovery
pub mod Tests
pub mod Examples
pub mod Verdicts
pub mod Keeps
pub mod Enabled
