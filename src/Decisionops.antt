-- ===== src/Decisionops.antt =====
-- platforms/decisionops: decisions by a provider, with a fallback, a cache and a circuit breaker.
pub mod Breaker
pub mod Question
pub mod Engine
mod Tests
