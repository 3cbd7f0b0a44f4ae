-- ===== src/Harness/Inner.antt =====
-- harness/model_inner_loop/: training, evaluation and promotion of a candidate model.
pub mod Contracts
pub mod Edges
pub mod Decisions
pub mod Policy
pub mod Commits
pub mod Emitted
pub mod Promotion
pub mod Refines
pub mod Runs
pub mod Accepted
pub mod Tests
