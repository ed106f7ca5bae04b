-- ===== src/Fixture.antt =====
-- The trusted synthetic fixture of the assurance programme, assurance/phase2/fixture/store.py: a
-- SQLite database of attempts, write requests, records and a hash-chained audit ledger.
pub mod Schema
pub mod Query
pub mod Ledger
pub mod Lifecycle
pub mod Write
pub mod Tests
pub mod Observe
pub mod Final
pub mod Invariant
pub mod System
