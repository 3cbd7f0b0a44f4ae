-- ===== src/ControlPlane/Enums.antt =====
-- control_plane/enums.py: a `StrEnum` is a data type with the text of its members, and the
-- function that reads a member back.
pub mod Lookup
pub mod ControlState
pub mod ControlEvent
pub mod StopReason
pub mod DecisionAction
pub mod DecisionSubject
pub mod EvidenceKind
