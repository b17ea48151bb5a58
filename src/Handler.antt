-- ===== src/Handler.antt =====
-- board/BoardCommunicationHandler: requests to SWT sequences, and answers to parameter values.
pub mod Defs
pub mod Send
pub mod Receive
pub mod Fifo
pub mod WriteReadback
