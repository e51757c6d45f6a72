-- ===== src/Rollups.antt =====
-- The rollup worker of crates/kemuri-server/src/rollup_worker.rs: it sums the rounds of each check
-- up in buckets of five minutes and of an hour.
pub mod Aggregate
pub mod Store
pub mod Worker
mod Tests
