-- ===== src/State.antt =====
-- The table of state variables and its full-text index: SqliteStateRepository of
-- src/atlas_memory/l2_semantic/repositories/state_repository.py. What SQLite leaves open, the order
-- of a query without ORDER BY, is here the order in which rows were first written.
pub mod Table
pub mod Reading
pub mod Query
pub mod Mirror
pub mod Changes
pub mod Purge
pub mod Access
pub mod Round
pub mod Existing
pub mod Pages
pub mod Limits
mod Tests
