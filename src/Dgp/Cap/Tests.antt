-- ===== src/Dgp/Cap/Tests.antt =====
-- Tests of the capability table.
mod Scenario
mod Instances
