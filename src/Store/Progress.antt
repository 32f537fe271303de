-- ===== src/Store/Progress.antt =====
-- src/job-store.ts: operations on a sound store, and whether they return.
pub mod Reconcile
pub mod Decide
