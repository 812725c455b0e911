-- ===== src/Session.antt =====
-- The life cycle of a session: HermesSessionHook of l1_working/session_tracker.py of
-- src/atlas_memory.
pub mod Hook
pub mod Repeat
mod Tests
