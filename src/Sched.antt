-- ===== src/Sched.antt =====
-- Scheduling classes of zxfoundation/sched.
pub mod Cpupri
pub mod Rt
pub mod Classed
mod Tests
