-- ===== src/Guardian.antt =====
-- src/guardian-protocol.ts and src/guardian.ts: the process between the runner and the shell. Its
-- test fixtures are off, as in production.
pub mod Protocol
pub mod Machine
pub mod Run
pub mod Signals
pub mod Shell
