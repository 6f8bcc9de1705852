-- ===== src/Aiops.antt =====
-- platforms/aiops: incidents, and the control plane that moves them.
pub mod Incidents
pub mod Api
mod Tests
