-- ===== src/Polaris.antt =====
-- pkg/polaris: the audit of the controllers of a cluster: its configuration, the results and their
-- summaries.
pub mod Config
pub mod Audit
pub mod Checks
pub mod Summary
mod Tests
