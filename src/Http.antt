-- ===== src/Http.antt =====
-- backend/internal/http: the portal's requests, the statuses of errors, and the middleware.
pub mod Errors
pub mod Context
pub mod Portal
pub mod Middleware
pub mod Handlers
pub mod Html
pub mod Router
