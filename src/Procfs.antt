-- ===== src/Procfs.antt =====
-- lading_payload/src/procfs.rs and procfs/proc.rs: the files of a process below `/proc`, drawn at
-- random, and as they are written. A text is a list of bytes.
pub mod Numbers
pub mod Proc
pub mod Stat
pub mod Masks
pub mod StoreBypass
pub mod IndirectBranch
pub mod Status
pub mod StatusGenerator
pub mod Process
pub mod Digits
mod Words
mod Fields
mod Plausible
mod Generated
pub mod Tests
