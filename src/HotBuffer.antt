-- ===== src/HotBuffer.antt =====
-- The L1 working memory: src/atlas_memory/l1_working/hot_buffer.py.
pub mod Session
pub mod Policy
pub mod Invariant
pub mod Active
pub mod Isolation
mod Tests
