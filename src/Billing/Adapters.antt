-- ===== src/Billing/Adapters.antt =====
-- core/billing/adapters: the providers' dialects.
pub mod Key
pub mod Python
pub mod Payme
pub mod Click
pub mod Registry
pub mod Sums
pub mod Forged
pub mod Replies
mod Tests
