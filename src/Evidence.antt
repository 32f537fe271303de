-- ===== src/Evidence.antt =====
-- src/store-evidence.ts: the durable evidence snapshot of a job and the monotone merge of one
-- observation onto it. A field that an observation omits is `none`; a nullable field that is
-- given as null is `some none`.
pub mod Defs
pub mod Merge
pub mod Extends
pub mod Coherent
pub mod Replay
pub mod Order
pub mod Validate
pub mod Validated
pub mod Refused
