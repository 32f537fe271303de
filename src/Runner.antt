-- ===== src/Runner.antt =====
-- src/runner.ts: the process that runs one job.
pub mod Machine
pub mod Handlers
pub mod Run
pub mod Grants
pub mod Endings
pub mod Accepted
