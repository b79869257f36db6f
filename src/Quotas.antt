-- ===== src/Quotas.antt =====
-- The quotas of each match and category: src/modules/quotas.
pub mod Service
pub mod Frame
pub mod Laws
pub mod Invariant
pub mod Race
pub mod Setting
