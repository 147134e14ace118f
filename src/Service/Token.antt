-- ===== src/Service/Token.antt =====
-- backend/internal/service/token_service.go: vouchers.
pub mod Policy
pub mod Expiry
pub mod Redeem
pub mod Revoke
pub mod Generate
