-- ===== src/Store/Refine.antt =====
-- src/job-store.ts: the operations against the steps of a job.
pub mod Defs
pub mod Launch
pub mod Decide
pub mod Publish
pub mod Perform
