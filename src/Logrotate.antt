-- ===== src/Logrotate.antt =====
-- lading/src/generator/file_gen/logrotate_fs/model.rs: the model of a filesystem whose log files
-- grow with time and are rotated. File is one file, State the filesystem and its queries, Advance
-- the passing of time with rotation, Handles what is done through file handles.
pub mod File
pub mod State
pub mod Advance
pub mod Handles
mod Growth
mod Every
mod Passing
mod Sound
pub mod Setup
pub mod Operations
mod Built
mod Paths
mod Groups
mod Chain
mod Shift
mod Rotation
mod Turnover
mod Served
mod Opened
mod Tests
mod Setups
