-- ===== src/Reliability.antt =====
-- common/reliability: the circuit breaker, the retry policy and the token bucket.
pub mod Breaker
pub mod Retry
pub mod TokenBucket
