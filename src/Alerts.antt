-- ===== src/Alerts.antt =====
-- Alerts of crates/kemuri-server/src/alerts.rs: rules on the metrics of a check's rounds, the state
-- machine of each rule and check, and what it writes to the database.
pub mod Store
pub mod Rule
pub mod Metric
pub mod Machine
pub mod NoData
pub mod Laws
