-- ===== src/Payload.antt =====
-- lading_payload/src: the payloads, each by how its `to_bytes` fills a number of bytes. Strings and
-- Ascii are whole; for the others what generates and encodes a member is a parameter.
pub mod Strings
pub mod Pool
pub mod Ascii
pub mod Lines
mod Cached
pub mod Members
mod Fitting
pub mod Frame
mod Framing
pub mod Halving
mod Halved
pub mod Traces
pub mod Records
mod Recorded
mod Traced
pub mod Tags
mod Tagging
mod Tagsets
mod Repeats
mod Calls
mod Cycle
pub mod Tests
mod Examples
mod TagTests
