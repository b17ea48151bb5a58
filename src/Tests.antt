-- ===== src/Tests.antt =====
-- Examples: a small board, an electronics that does what the writes say, and runs of the theorems.
pub mod Fixtures
mod Words
mod Texts
mod Requests
mod Services
mod Setup
mod Readout
mod Configurations
mod Status
mod Broker
mod Counters
