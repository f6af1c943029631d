-- ===== src/Dgp.antt =====
-- The domain-gate-portal layer of zxfoundation/dgp.
pub mod Authorize
pub mod Cap
pub mod SyncContract
pub mod Signal
pub mod Isolation
pub mod Admission
pub mod MemoryContract
pub mod Rights
pub mod Roots
mod AdmissionTests
mod AuthorizeTests
mod RootsTests
mod SignalTests
mod MappingTests
mod IsolationTests
mod Tests
