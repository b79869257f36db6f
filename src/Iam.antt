-- ===== src/Iam.antt =====
-- Accounts and sessions: src/modules/iam.
pub mod Duration
pub mod Users
pub mod Auth
pub mod Guard
pub mod Listings
pub mod Desk
pub mod Calls
pub mod OwnAccount
pub mod Sessions
pub mod Lockouts
pub mod Register
pub mod Registration
