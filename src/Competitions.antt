-- ===== src/Competitions.antt =====
-- The competitions and their matches: src/modules/competitions.
pub mod Service
pub mod Matches
pub mod Reads
pub mod Window
pub mod Closing
