-- ===== src/Owner.antt =====
-- src/owner.ts: which session file backs an owner.
pub mod Validate
pub mod Backed
pub mod Header
