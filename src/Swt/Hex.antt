-- ===== src/Swt/Hex.antt =====
-- `halfByteToHex` and `wordToHex` of communication-utils/SwtSequence: eight capital digits.
use fit_fred.Common.{ℕ, ◌/◌, ◌^◌, bit_and, ◌≡◌, refl, Bytes, codes, get_elem?, ◌∷◌, [], none, some}

abbrev hex_digits : Bytes
hex_digits = codes "0123456789ABCDEF"

unfoldable pub half_byte_to_hex : ℕ → ℕ
half_byte_to_hex half_byte = elim (get_elem? hex_digits (bit_and half_byte 0x0F)) [
  | none ↦ 0
  | some c ↦ c
]

unfoldable pub word_to_hex : ℕ → Bytes
word_to_hex word =
    half_byte_to_hex (bit_and (word / 2 ^ 28) 0x0F)
    ∷ half_byte_to_hex (bit_and (word / 2 ^ 24) 0x0F)
    ∷ half_byte_to_hex (bit_and (word / 2 ^ 20) 0x0F)
    ∷ half_byte_to_hex (bit_and (word / 2 ^ 16) 0x0F)
    ∷ half_byte_to_hex (bit_and (word / 2 ^ 12) 0x0F)
    ∷ half_byte_to_hex (bit_and (word / 2 ^ 8) 0x0F)
    ∷ half_byte_to_hex (bit_and (word / 2 ^ 4) 0x0F)
    ∷ half_byte_to_hex (bit_and word 0x0F)
    ∷ []

hex_beef : word_to_hex 0xDEADBEEF ≡ codes "DEADBEEF"
unfolding word_to_hex half_byte_to_hex
hex_beef = refl
