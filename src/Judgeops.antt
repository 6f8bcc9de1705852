-- ===== src/Judgeops.antt =====
-- platforms/judgeops: judges and their ensemble, the reviews of their verdicts, the labels of human
-- reviewers, and comparisons of pairs.
pub mod Annotation
pub mod Pairwise
pub mod Rubric
pub mod Ensemble
pub mod Store
pub mod Shadow
mod Tests
