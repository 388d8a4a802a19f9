-- ===== src/Auth.antt =====
-- internal/auth: accounts, passwords, sessions, and what an admin's page may do to them.
pub mod Passwords
pub mod Accounts
pub mod Sessions
pub mod External
pub mod Console
pub mod Known
pub mod Unique
pub mod Sound
pub mod Admitted
pub mod Served
pub mod Admins
pub mod Roles
pub mod Policy
pub mod Granted
pub mod Changed
pub mod Refines
pub mod Rights
pub mod Escalation
pub mod Remaining
pub mod Kept
pub mod Ended
pub mod Lockout
mod Tests
