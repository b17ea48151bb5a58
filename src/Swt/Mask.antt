-- ===== src/Swt/Mask.antt =====
-- `createMask` and `createANDMask` of mapi/src/communication-utils/SwtSequence.cpp, and what the
-- masks do to a register that is changed by them.
use native.Mathlib.Nat.{mod-lt}
use fit_fred.Common.{
  ℕ, ◌+◌, ◌-◌, ◌*◌, ◌/◌, ◌%◌, ◌^◌, ◌≤◌, ◌<◌, bit_and, bit_or, ◌≡◌, arith, ltb, if◌then◌else◌, Bool,
  ◌&&◌, leb, ◌⊎◌,
}
use fit_fred.Bits.Fields.{
  bit, bit_ext, bit-and, bit-or, bit-mod, bit-ones, bit-not, bit_above, bit-le, bit-shl, bit-shr,
  lt_of_bits,
}
use fit_fred.Utils.BitField.{get_bit_field, bit-get_bit_field}

-- `(0xFFFFFFFFu >> (32 - bitLength)) << firstBit`, in 32 bits. A shift by 32 is not defined in C++:
-- the bit length is at least 1 and the first bit below 32 wherever a parameter is described.
field_ones : ℕ → ℕ → ℕ
field_ones first_bit bit_length = (2 ^ 32 - 1) / 2 ^ (32 - bit_length) * 2 ^ first_bit % 2 ^ 32

unfoldable pub create_and_mask : ℕ → ℕ → ℕ
unfolding field_ones
create_and_mask first_bit bit_length = 2 ^ 32 - 1 - field_ones first_bit bit_length

-- The two words that `createMask` writes to `dest`.
unfoldable pub create_mask : ℕ → ℕ → ℕ → ℕ × ℕ
unfolding field_ones
create_mask first_bit bit_length value =
    let and_mask = 2 ^ 32 - 1 - field_ones first_bit bit_length in
    (and_mask, bit_and (value * 2 ^ first_bit % 2 ^ 32) (2 ^ 32 - 1 - and_mask))

-- A digit position lies in a field.
abbrev pub inside : ℕ → ℕ → ℕ → Bool
inside k f l = leb f k && ltb k (f + l)

bit-field_ones : (k f l : ℕ) → f + l ≤ 32 → bit k (field_ones f l) ≡ (if inside k f l then 1 else 0)
unfolding field_ones
bit-field_ones k f l h = ground (
  arith,
  bit-mod k 32 ((2 ^ 32 - 1) / 2 ^ (32 - l) * 2 ^ f),
  bit-shl k f ((2 ^ 32 - 1) / 2 ^ (32 - l)),
  bit-shr (k - f) (32 - l) (2 ^ 32 - 1),
  bit-ones (32 - l + (k - f)) 32,
)

pub bit-create_and_mask :
    (k f l : ℕ)
    → f + l ≤ 32
    → bit k (create_and_mask f l) ≡ (if ltb k 32 then (if inside k f l then 0 else 1) else 0)
unfolding create_and_mask
bit-create_and_mask k f l h =
    ground (arith, bit-not k 32 (field_ones f l) (mod-lt _ (omega arith)), bit-field_ones k f l h)

-- The register change that a masked write stands for: AND with the first word, then OR with the
-- second (the firmware's RMW frames).
abbrev pub read_modify_write : ℕ → ℕ → ℕ → ℕ
read_modify_write reg and_mask or_mask = bit_or (bit_and reg and_mask) or_mask

-- Digit by digit, the field takes the new value and all else stays.
pub bit-read_modify_write :
    (k reg f l raw : ℕ)
    → f + l ≤ 32
    → raw < 2 ^ l
    → reg < 2 ^ 32
    → bit k (read_modify_write reg (create_and_mask f l) (raw * 2 ^ f))
      ≡ (if inside k f l then bit (k - f) raw else bit k reg)
bit-read_modify_write k reg f l raw h fits word = ground (
  arith,
  bit-or k (bit_and reg (create_and_mask f l)) (raw * 2 ^ f),
  bit-and k reg (create_and_mask f l),
  bit-create_and_mask k f l h,
  bit-shl k f raw,
  bit_above (k - f) l raw fits,
  bit_above k 32 reg word,
  bit-le k reg,
)

-- The result is a 32-bit word again.
pub read_modify_write-lt :
    (reg f l raw : ℕ)
    → f + l ≤ 32
    → raw < 2 ^ l
    → reg < 2 ^ 32
    → read_modify_write reg (create_and_mask f l) (raw * 2 ^ f) < 2 ^ 32
read_modify_write-lt reg f l raw h fits word = lt_of_bits _ 32 λ k far.
    ground (arith, bit-read_modify_write k reg f l raw h fits word, bit_above k 32 reg word far)

-- A masked write to a 32-bit register of a value that fits a field inside it: the field then holds
-- the value, and any field of the register that does not overlap with it holds what it held before.
pub get_bit_field-read_modify_write :
    (reg f l raw f' l' : ℕ)
    → f + l ≤ 32
    → raw < 2 ^ l
    → reg < 2 ^ 32
    → f' + l' ≤ 32
    → (f' + l' ≤ f) ⊎ (f + l ≤ f')
    → let result = read_modify_write reg (create_and_mask f l) (raw * 2 ^ f) in
      (get_bit_field result f l ≡ raw) × (get_bit_field result f' l' ≡ get_bit_field reg f' l')
get_bit_field-read_modify_write reg f l raw f' l' h fits word h' apart =
    let result = read_modify_write reg (create_and_mask f l) (raw * 2 ^ f) in
    let whole = read_modify_write-lt reg f l raw h fits word in
    (
      bit_ext _ _ (λ k. ground (
        arith,
        bit-get_bit_field k result f l whole h,
        bit-read_modify_write (f + k) reg f l raw h fits word,
        bit_above k l raw fits,
      )),
      bit_ext _ _ (λ k. ground (
        arith,
        bit-get_bit_field k result f' l' whole h',
        bit-get_bit_field k reg f' l' word h',
        bit-read_modify_write (f' + k) reg f l raw h fits word,
        apart,
      )),
    )
