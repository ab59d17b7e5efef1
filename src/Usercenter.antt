-- ===== src/Usercenter.antt =====
-- The user centre (services/usercenter).
pub mod Domain
pub mod IdempotencyRepository
pub mod TokenRepository
pub mod Authentication
pub mod Account
pub mod Commands
