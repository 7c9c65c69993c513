-- ===== src/Codec.antt =====
-- lading/src/codec.rs: the body of a request by its content encodings.
pub mod Decode
mod Encoded
mod Tests
