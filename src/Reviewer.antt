-- ===== src/Reviewer.antt =====
-- platforms/reviewer: the review agent that follows a pull request and guards its suggestions.
pub mod Domain
pub mod Store
pub mod Github
pub mod Service
pub mod Api
mod Tests
