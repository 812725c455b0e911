-- ===== src/Security.antt =====
-- The guard of destructive operations: src/atlas_memory/security/delete_guard.py.
pub mod DeleteGuard
pub mod Persistent
mod Tests
