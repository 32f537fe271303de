-- ===== src/Store/Life.antt =====
-- src/job-store.ts: one job through the steps of its life.
pub mod Revisions
pub mod Sound
pub mod Fresh
pub mod Forward
