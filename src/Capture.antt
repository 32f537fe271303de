-- ===== src/Capture.antt =====
-- src/output-capture.ts: the bounded capture of one stream of a job.
pub mod Machine
pub mod Seal
pub mod Kept
pub mod Heard
pub mod Receipt
pub mod RoundTrip
pub mod Steps
pub mod Truth
pub mod Final
