-- ===== src/AccessControl.antt =====
-- The checks at the gates: src/modules/access-control.
pub mod Service
pub mod Devices
pub mod Scans
pub mod Entry
pub mod Revoked
pub mod Offline
pub mod Gate
pub mod Refinement
