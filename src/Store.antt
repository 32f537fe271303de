-- ===== src/Store.antt =====
-- src/job-store.ts: the durable job store.
pub mod Tables
pub mod Rows
pub mod Transaction
pub mod Launch
pub mod Publish
pub mod Read
pub mod View
pub mod Step
pub mod Refine
pub mod Operations
pub mod Atomic
pub mod Committed
pub mod Life
pub mod Run
pub mod Authority
pub mod Progress
