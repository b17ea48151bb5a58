-- ===== src/Alf.antt =====
-- communication-utils/AlfResponseParser: the lines of a text that ALF answers with.
pub mod Hex
pub mod Frame
pub mod Parser
