-- ===== src/Harness/Traces.antt =====
-- harness/trace_harvesting/: batches of observable traces, until enough of them are verified.
pub mod Contracts
pub mod Edges
pub mod Policy
pub mod Emitted
pub mod Harvest
pub mod Refines
pub mod Runs
pub mod Tests
