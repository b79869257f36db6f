-- ===== src/Documents.antt =====
-- The supporting documents: src/modules/documents.
pub mod Service
pub mod Versions
