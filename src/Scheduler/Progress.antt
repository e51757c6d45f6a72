-- ===== src/Scheduler/Progress.antt =====
-- What a due check leads to, in crates/kemuri-server/src/scheduler.rs.
pub mod Once
pub mod Reconciled
pub mod Turn
pub mod Tick
