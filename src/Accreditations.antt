-- ===== src/Accreditations.antt =====
-- The badges: src/modules/accreditations.
pub mod Numbering
pub mod Service
pub mod Frame
pub mod Issue
pub mod Draws
