-- ===== src/Ack.antt =====
-- lading/src/generator/splunk_hec/acknowledgements.rs: the channels of the Splunk HEC generator, and
-- the service that polls for the acknowledgements of what was sent on a channel. The HTTP client,
-- the timer and the channels between tasks enter as the events of the service's loop.
pub mod Channels
pub mod Service
mod Retries
mod Tests
