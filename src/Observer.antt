-- ===== src/Observer.antt =====
-- lading/src/observer/linux/procfs: what is read of the proc filesystem. A text is a list of bytes, of
-- which the white space is that of ASCII.
pub mod Tokens
pub mod Smaps
pub mod Regions
pub mod Stat
pub mod Command
mod Measures
mod Totals
mod Tests
