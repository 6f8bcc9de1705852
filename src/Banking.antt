-- ===== src/Banking.antt =====
-- platforms/banking: the scoring of transactions.
pub mod Score
pub mod Api
mod Tests
