-- ===== src/Storage.antt =====
-- src/lcp/adapters/storage: the SQLite index, the job folders and the audit log.
pub mod Json
pub mod World
pub mod Exec
pub mod Audit
pub mod JobStore
pub mod Orderly
