-- ===== src/Shadow.antt =====
-- The shadow extraction of facts: active/shadow_worker.py, shadow_reconcile of orchestrator.py and
-- what they use of core/models.py, all under src/atlas_memory.
pub mod Record
pub mod Reconcile
pub mod Worker
pub mod Provenance
pub mod Fitting
pub mod Drain
pub mod Retry
pub mod Steps
mod Tests
