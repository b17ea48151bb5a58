-- ===== src/Utils.antt =====
-- utils/utils.h: bit fields, two's complement and splitting of texts.
pub mod BitField
pub mod TwosComplement
pub mod Decimal
pub mod Gbt
