-- ===== src/Snapshot.antt =====
-- src/output.ts: the reader of output snapshots.
pub mod Sidecar
pub mod Read
pub mod Sealed
pub mod Facts
