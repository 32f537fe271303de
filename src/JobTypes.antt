-- ===== src/JobTypes.antt =====
-- src/job-types.ts: errors and diagnostics, and the validators.
pub mod Errors
pub mod Validate
pub mod Identity
