-- ===== src/Staff.antt =====
-- The controllers of the staff.
pub mod Settings
pub mod Field
pub mod Exports
pub mod Routes
pub mod Supervision
