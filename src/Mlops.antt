-- ===== src/Mlops.antt =====
-- The MLOps control plane: platforms/mlops.
pub mod Domain
pub mod Store
pub mod Api
mod Tests
