-- ===== src/Bridge.antt =====
-- The storage bridge of replication: src/atlas_memory/sync/bridge.py. Export reads pages of the
-- audit log above a cursor; Apply writes a peer's mutations to the store; the rest are proofs.
pub mod Export
pub mod Apply
pub mod Cursor
pub mod Stale
pub mod Guard
mod Tests
