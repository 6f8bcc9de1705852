-- ===== src/Agents.antt =====
-- platforms/agents: the agent runtime behind its guardrail, its tools, models and feedback.
pub mod Policy
pub mod Runtime
pub mod Api
pub mod Feedback
pub mod Catalog
mod Tests
