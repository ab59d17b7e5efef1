-- ===== src/Gateway.antt =====
-- The gateway (services/gateway).
pub mod Session
pub mod SessionManager
