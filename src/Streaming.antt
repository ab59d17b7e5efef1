-- ===== src/Streaming.antt =====
-- The messages between services (common/streaming).
pub mod Router
