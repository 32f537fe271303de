-- ===== src/Output.antt =====
-- src/output.ts: pages of captured output.
pub mod Utf8
pub mod Json
pub mod Page
pub mod Account
pub mod Bounds
pub mod Progress
pub mod Shown
