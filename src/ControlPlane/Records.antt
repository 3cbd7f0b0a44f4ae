-- ===== src/ControlPlane/Records.antt =====
-- control_plane/records.py, a module for each record.
pub mod EvidenceRecord
pub mod DecisionRecord
pub mod StateSnapshot
pub mod TransitionRecord
