-- ===== src/Config.antt =====
-- crates/kemuri-config/src/lib.rs: the configuration, its validation, the checks that it resolves to
-- and the difference of two configurations.
pub mod Error
pub mod Types
pub mod Values
pub mod Validate
pub mod Params
pub mod Resolve
pub mod Equal
pub mod Diff
mod Tests
