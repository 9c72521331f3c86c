-- ===== src/Billing.antt =====
-- core/billing: payments, subscriptions, provider callbacks and the platform's sweeps.
pub mod State
pub mod Periods
pub mod Models
pub mod Store
pub mod Payments
pub mod Finalize
pub mod Subscriptions
pub mod Rolling
pub mod Webhooks
pub mod Jobs
pub mod Activation
pub mod Installs
pub mod Success
pub mod Opening
pub mod Consistency
pub mod Ledger
pub mod Redelivery
pub mod Intake
pub mod Mismatch
pub mod Adapters
mod Tests
