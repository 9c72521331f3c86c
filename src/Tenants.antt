-- ===== src/Tenants.antt =====
-- core/tenants: organizations, memberships, roles and invitations.
pub mod Models
pub mod Store
pub mod Service
pub mod Requests
pub mod Owners
pub mod Owned
pub mod Access
pub mod Joining
pub mod Inviting
pub mod Clashes
mod Tests
