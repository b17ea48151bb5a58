-- ===== src/Board.antt =====
-- mapi/include/board/Board.h, mapi/src/board/Board.cpp: a board's parameters and the conversions
-- between the words of its registers and the values of its parameters.
pub mod Defs
pub mod Codes
pub mod Lookup
pub mod Environment
