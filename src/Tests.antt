-- ===== src/Tests.antt =====
-- The theorems at concrete databases.
pub mod Data
pub mod Requests
pub mod Decisions
pub mod Scans
pub mod Staff
pub mod Accounts
pub mod People
pub mod Mails
