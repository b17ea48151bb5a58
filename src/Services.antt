-- ===== src/Services.antt =====
-- services and services/templates: what is built on BoardCommunicationHandler.
pub mod CounterRates
pub mod BlockRead
pub mod Requests
pub mod Exchange
pub mod DelayChange
pub mod Histograms
pub mod Chain
pub mod Resets
pub mod Configurations
pub mod DatabaseBroker
pub mod BoardStatus
pub mod ResetFee
