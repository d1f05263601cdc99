-- ===== src/Audit.antt =====
-- claimci/audit.py: the manifest of an experiment pair, the checks of its artifacts, the verdict.
pub mod Paths
pub mod Spec
pub mod Research
pub mod Verdict
pub mod Confined
pub mod Clear
pub mod Outcome
pub mod Supported
pub mod Caught
pub mod Returning
