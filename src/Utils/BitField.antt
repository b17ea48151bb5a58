-- ===== src/Utils/BitField.antt =====
-- `getBitField` of mapi/include/utils/utils.h, at `uint32_t`.
use fit_fred.Common.{
  ℕ, ◌+◌, ◌-◌, ◌/◌, ◌%◌, ◌^◌, ◌≤◌, ◌<◌, bit_and, ◌≡◌, arith, ◌==◌, ltb, if◌then◌else◌,
}
use fit_fred.Bits.Fields.{bit, bit_ext, bit-and, bit-mod, bit-ones, bit-shr, bit_above, bit-le}

-- `first` and `length` are `uint8_t`. A shift by 32 or more is not defined in C++; `length` is below
-- 32 where the mask is built.
unfoldable pub get_bit_field : ℕ → ℕ → ℕ → ℕ
get_bit_field word first length =
    if length == 32 then word else bit_and (word / 2 ^ first) (2 ^ length - 1)

-- The low mask takes a remainder.
pub and_low_mask : (a l : ℕ) → bit_and a (2 ^ l - 1) ≡ a % 2 ^ l
and_low_mask a l =
    bit_ext _ _
      λ k. ground (arith, bit-and k a (2 ^ l - 1), bit-ones k l, bit-mod k l a, bit-le k a)

-- The digits of a field that lies inside the word.
pub bit-get_bit_field :
    (k word first length : ℕ)
    → word < 2 ^ 32
    → first + length ≤ 32
    → bit k (get_bit_field word first length) ≡ (if ltb k length then bit (first + k) word else 0)
unfolding get_bit_field
bit-get_bit_field k word first length fits inside = ground (
  arith,
  and_low_mask (word / 2 ^ first) length,
  bit-mod k length (word / 2 ^ first),
  bit-shr k first word,
  bit_above k 32 word fits,
  whole,
)
  where
    whole : first + length ≤ 32 → length ≡ 32 → first + k ≡ k
    whole h e = omega arith
