-- ===== src/Scoms.antt =====
-- SCOMS, the kernel's object management: zxfoundation/scoms.
pub mod Kobject
pub mod Metadata
pub mod Robject
mod MetadataTests
mod Tests
