-- ===== src/Service.antt =====
-- backend/internal/service.
pub mod Audit
pub mod Gateway
pub mod Token
pub mod Quota
pub mod Session
pub mod Plan
pub mod Payment
pub mod Radius
