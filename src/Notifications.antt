-- ===== src/Notifications.antt =====
-- The notification worker of crates/kemuri-server/src/notification.rs: it delivers the pending
-- entries of the outbox, and retries them after a delay.
pub mod Backoff
pub mod Worker
pub mod Laws
mod Tests
