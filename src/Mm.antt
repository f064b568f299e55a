-- ===== src/Mm.antt =====
-- os/src/mm: memory management.
pub mod UserBuffer
pub mod Frame
pub mod Address
pub mod Pte
pub mod PageTable
pub mod MapArea
pub mod MemorySet
pub mod Access
