-- ===== src/Memory.antt =====
-- os/src/memory: addresses and page numbers, the stack of physical frames, the SV39 page table.
pub mod Address
pub mod Frames
pub mod Entry
pub mod PageTable
pub mod MapArea
pub mod MemorySet
pub mod UserBuffer
pub mod UserString
mod Tests
mod AreaTests
