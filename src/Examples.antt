-- ===== src/Examples.antt =====
-- Concrete inputs: whole-number floats, a small file system, and the theorems applied to them.
mod Inputs
mod Measurements
mod Audits
mod Configs
mod Records
mod Runs
mod Streams
