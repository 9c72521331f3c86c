-- ===== src/Notifications.antt =====
-- core/notifications: the outbox, its dispatcher and the daily cap of SMS.
pub mod Outbox
pub mod Dispatcher
pub mod Rows
pub mod Delivery
pub mod Pass
pub mod Passes
pub mod Unresolved
pub mod Caps
mod Tests
