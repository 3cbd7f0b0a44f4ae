-- ===== src/DataGate.antt =====
-- verification/: the gate that synthetic examples pass.
pub mod Decontamination
