-- ===== src/ControlPlane.antt =====
-- control_plane/: the versioned records that every controller emits, with their validation.
pub mod Enums
pub mod Text
pub mod Value
pub mod Validation
pub mod Dict
pub mod Reading
pub mod Encoding
pub mod Records
mod Tests
