-- ===== src/Services/Histograms.antt =====
-- services/histograms: the blocks of bins of a PM, the reading operations that cover them, and where
-- the words that are read are stored; the histograms of the TCM.
pub mod Blocks
pub mod Operations
pub mod Readout
pub mod Bins
pub mod Pm
pub mod Tcm
