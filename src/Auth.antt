-- ===== src/Auth.antt =====
-- core/auth: accounts, sessions, second factors and the limits on attempts.
pub mod Redis
pub mod Store
pub mod Sessions
pub mod Factors
pub mod Accounts
pub mod Families
pub mod Requests
pub mod Rotation
pub mod Renewal
pub mod Serving
pub mod Served
pub mod Replay
pub mod Passwords
pub mod Logins
pub mod Lockout
pub mod Codes
pub mod Challenges
mod Tests
