-- ===== src/Block.antt =====
-- lading_payload/src/block.rs: blocks of bytes that are built ahead of time. Cache hands them out,
-- Read reads at an offset of their endless repetition, Construct builds them.
pub mod Cache
mod Turns
pub mod Read
pub mod Seek
pub mod Cycle
pub mod Construct
pub mod Sizes
pub mod Fixed
mod Progress
pub mod Tests
