-- ===== src/Kernel.antt =====
-- The shared kernel of the backend (src/shared/kernel).
pub mod Errors
pub mod Permissions
pub mod Pagination
pub mod Listing
pub mod Duties
