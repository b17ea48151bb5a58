-- ===== src/Services/ResetFee.antt =====
-- mapi/src/services/ResetFEE.cpp: the reset of the front-end electronics.
pub mod Masks
pub mod Identity
pub mod Spi
pub mod Requests
pub mod Run
