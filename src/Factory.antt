-- ===== src/Factory.antt =====
-- The release factory: platforms/factory.
pub mod Spec
pub mod Catalog
pub mod Workload
pub mod Governance
pub mod Store
pub mod Api
mod Tests
