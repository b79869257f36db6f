-- ===== src/Reporting.antt =====
-- The figures and reports of the staff: src/modules/reporting.
pub mod Dashboard
pub mod Figures
pub mod Labels
pub mod Scope
pub mod Reports
pub mod Partition
pub mod Search
