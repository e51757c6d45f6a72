-- ===== src/Scheduler.antt =====
-- The scheduler of crates/kemuri-server/src/scheduler.rs: when a check is due, which rounds are
-- dispatched and which are skipped, together with the workers of crates/kemuri-server/src/worker.rs
-- that empty its queue.
pub mod Due
pub mod Keys
pub mod State
pub mod Progress
pub mod Steps
pub mod Overlap
mod Tests
