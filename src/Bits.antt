-- ===== src/Bits.antt =====
-- Facts about `&` and `|` on unsigned words of any width.
mod Step
pub mod Fields
