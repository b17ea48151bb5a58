-- ===== src/WinCc.antt =====
-- communication-utils/WinCCRequest: the commands that the SCADA system sends.
pub mod Request
