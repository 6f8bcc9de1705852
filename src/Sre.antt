-- ===== src/Sre.antt =====
-- platforms/kubernetes_sre: changes of a cluster that one person proposes, another approves and a
-- third executes.
pub mod Executor
pub mod Store
pub mod Service
pub mod Api
pub mod Analyzers
mod Tests
