-- ===== src/Sync.antt =====
-- The synchronisation of memory between agents: src/atlas_memory/sync.
pub mod Clock
pub mod Lww
pub mod Delta
mod Tests
