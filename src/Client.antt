-- ===== src/Client.antt =====
-- src/store-client.ts and src/store-worker.ts: the store behind a worker thread.
pub mod Wire
pub mod Requests
pub mod Settle
pub mod Startup
