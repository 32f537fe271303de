-- ===== src/Store/Authority.antt =====
-- src/job-store.ts: who may launch a job, and who may see it.
pub mod Grants
pub mod Once
pub mod Fence
pub mod Notices
