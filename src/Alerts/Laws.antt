-- ===== src/Alerts/Laws.antt =====
-- What the alert evaluator of crates/kemuri-server/src/alerts.rs guarantees, and where it fails.
pub mod Conditions
pub mod Rows
pub mod Diagram
pub mod Refinement
pub mod Silence
mod Tests
