-- ===== src/Dgp/Cap.antt =====
-- Capabilities: zxfoundation/dgp/cap.zcomponent.
pub mod Token
pub mod Slots
pub mod Ops
pub mod Held
pub mod Sound
pub mod Issue
pub mod Preserve
pub mod Sweeps
pub mod Reach
pub mod Authority
pub mod Delegation
pub mod Revocation
pub mod Swept
pub mod Total
mod Tests
