-- ===== src/RsiPolicy.antt =====
-- orchestration/rsi_policy.py: the pure policy that decides on one evaluated candidate.
pub mod Inputs
pub mod FromConfig
pub mod Step
pub mod Records
pub mod Edges
pub mod Evaluate
pub mod Emitted
pub mod Branches
pub mod Outcomes
pub mod Admission
pub mod Peak
pub mod Progress
pub mod Chain
pub mod Ids
pub mod Ready
pub mod Built
pub mod BuiltRun
pub mod ReadyEdges
pub mod Totality
mod Tests
mod Witnesses
