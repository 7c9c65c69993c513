-- ===== src/FileGen.antt =====
-- lading/src/generator/file_gen/logrotate.rs: a writer of files that rotates them by their names.
pub mod Disk
pub mod Child
pub mod Server
mod Shift
mod History
mod Written
mod Named
mod Created
mod Tests
