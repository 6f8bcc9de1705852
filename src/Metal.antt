-- ===== src/Metal.antt =====
-- platforms/metal_runtime: the index of prompts in a cache and the scheduler of generations.
pub mod Cache
pub mod Scheduler
mod Tests
