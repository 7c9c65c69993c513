-- ===== src/Program.antt =====
-- lading/src/bin/lading.rs: the options of the command line and the configuration that they change.
pub mod KeyValues
pub mod Configuration
mod Displayed
mod Labels
mod Parsed
mod Tests
