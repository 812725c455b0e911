-- ===== src/Audit.antt =====
-- The hash-chained audit ledger: `Sha256AuditLedgerRepository` of
-- src/atlas_memory/l2_semantic/repositories/audit_repository.py. A table is the list of its rows by
-- ascending `seq`; values are the texts that the table stores (JSON, already encoded). SHA-256 and
-- the printing of numbers are parameters.
pub mod Hashing
pub mod Ledger
pub mod Verify
pub mod Chain
pub mod Heal
pub mod Redact
pub mod Tamper
mod Tests
