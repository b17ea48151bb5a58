-- ===== src/FitData.antt =====
-- mapi/src/board/FitData.cpp: the boards, their parameters, the environment variables and the
-- structure of the histograms, as they are built from the tables of the database.
pub mod Parameters
pub mod Devices
pub mod Histograms
pub mod Environment
