-- ===== src/Saas.antt =====
-- modules/saas: what a tenant's plan grants, and how much it uses.
pub mod Entitlements
pub mod Metering
pub mod Coverage
pub mod Usage
mod Tests
