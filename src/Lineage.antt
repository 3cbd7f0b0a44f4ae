-- ===== src/Lineage.antt =====
-- lineage/: the stores of accepted work.
pub mod PeakPointer
pub mod JsonFile
pub mod PeakStore
mod Tests
