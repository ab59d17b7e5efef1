-- ===== src/Discovery.antt =====
-- The discovery of services (common/discovery).
pub mod Registry
