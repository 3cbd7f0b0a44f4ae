-- ===== src/Harness.antt =====
-- harness/: the policies of the co-evolution loop.
pub mod Steps
pub mod Position
pub mod Metadata
pub mod Outer
pub mod Traces
pub mod Inner
