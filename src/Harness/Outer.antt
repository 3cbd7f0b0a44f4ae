-- ===== src/Harness/Outer.antt =====
-- harness/outer_loop/: the search for a better harness under a frozen model.
pub mod Contracts
pub mod Edges
pub mod Moves
pub mod Policy
pub mod Emitted
pub mod Search
pub mod Reached
pub mod Refines
pub mod Runs
pub mod Climb
pub mod Start
pub mod Tests
