-- ===== src/Tests.antt =====
-- Concrete inputs: tests of the definitions, and each theorem at one of them.
mod Store
mod Evidence
mod Progress
mod JobTypes
mod Output
mod Guardian
mod Client
mod Capture
mod Runner
mod Validate
mod Snapshot
mod Owner
