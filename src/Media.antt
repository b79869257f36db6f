-- ===== src/Media.antt =====
-- Media organisations, the profiles of their journalists, and the desk of an editor in chief:
-- src/modules/media and src/modules/media-desk.
pub mod Service
pub mod Profiles
pub mod Desk
pub mod Editors
