-- ===== src/Requests/Http.antt =====
-- The two controllers of the requests: src/modules/requests/presentation/http.
pub mod Requester
pub mod Desk
pub mod Isolation
