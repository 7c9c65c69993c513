-- ===== src/Prometheus.antt =====
-- lading/src/target_metrics/prometheus.rs: what is recorded of a text of metrics.
pub mod Strings
pub mod Scrape
pub mod Splitting
mod Samples
mod Calls
mod Families
mod Tests
