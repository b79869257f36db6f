-- ===== src/Configuration.antt =====
-- Categories and zones of accreditation: src/modules/accreditation-config.
pub mod Service
