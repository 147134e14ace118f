-- ===== src/Tests.antt =====
-- The theorems at concrete inputs, and runs of the definitions.
pub mod Fixture
mod Codes
mod Redeem
mod Accounting
mod Radius
mod Gateway
mod Vouchers
mod Money
mod Access
mod Stores
mod Web
mod Retries
mod Portal
pub mod Server
mod Postgres
