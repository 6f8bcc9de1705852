-- ===== src/Streaming.antt =====
-- platforms/streaming: the reliability of event streams.
pub mod Slo
pub mod Diagnosis
mod Tests
