-- ===== src/Retention.antt =====
-- The retention worker of crates/kemuri-server/src/retention_worker.rs: it deletes what is older
-- than the configured retention.
pub mod Store
pub mod Worker
pub mod Loop
pub mod Batch
mod Tests
