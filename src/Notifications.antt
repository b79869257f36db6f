-- ===== src/Notifications.antt =====
-- The notifications by mail: src/modules/notifications, and the renderer of templates of
-- src/infrastructure/mail/template-renderer.service.ts.
pub mod Renderer
pub mod Rendering
pub mod Pieces
pub mod Templates
pub mod Service
pub mod Listener
pub mod Delivery
