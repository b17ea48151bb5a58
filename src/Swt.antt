-- ===== src/Swt.antt =====
-- communication-utils/SwtSequence: the text of a sequence of SWT frames for ALF.
pub mod Mask
pub mod Hex
pub mod Sequence
