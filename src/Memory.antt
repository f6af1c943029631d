-- ===== src/Memory.antt =====
-- The memory managers: zxfoundation/memory.
pub mod Numa
pub mod Pmm
mod Tests
mod FrameTests
mod FolioTests
