-- ===== src/Utils/TwosComplement.antt =====
-- `twosComplementEncode` and `twosComplementDecode` of mapi/include/utils/utils.h, as the board code
-- calls them: an `int64_t` value goes into a `uint32_t`, and a `uint32_t` code into an `int32_t`.
pub mod RoundTrip
use native.Mathlib.Nat.{pow-suc, mod-eq_of_lt, mod-lt}
use fit_fred.Common.{
  ℕ, zero, suc, ◌+◌, ◌-◌, ◌*◌, ◌/◌, ◌%◌, ◌^◌, ◌≤◌, ◌<◌, bit_and, bit_or, ◌≡◌, refl, arith, ◌==◌,
  ltb, if◌then◌else◌, Bool-cases, inl, inr, sym,
}
use fit_fred.Common.Int.{ℤ, pos, negsuc, to_u32, to_int32, ◌≤ℤ◌}
use fit_fred.Bits.Fields.{
  bit, bit_ext, bit-and, bit-or, bit-mod, bit-ones, bit-pow, bit_digit, bit-not, bit-zero,
  bit_above, bit-le, bit-shl, bit_lem, pow_pos, pow_mono,
}
use fit_fred.Utils.BitField.{and_low_mask}

unfoldable pub encode : ℤ → ℕ → ℕ
encode value bits_number =
    if bits_number == 32 then to_u32 value else bit_and (to_u32 value) (2 ^ bits_number - 1)

-- `code |= ~mask` if the sign bit is set. The masks are built only for fewer than 32 bits.
extend_sign : ℕ → ℕ → ℕ
extend_sign code bits_number =
    let mask = 2 ^ bits_number - 1 in
    let masked = bit_and code mask in
    if bit_and masked (2 ^ (bits_number - 1)) == 0
    then masked
    else bit_or masked (2 ^ 32 - 1 - mask)

pub decode : ℕ → ℕ → ℤ
unfolding extend_sign
decode code bits_number =
    if bits_number == 32 then to_int32 code else to_int32 (extend_sign code bits_number)

-- Testing a single bit.
and_pow : (a k : ℕ) → bit_and a (2 ^ k) ≡ bit k a * 2 ^ k
and_pow a k = bit_ext _ _ λ j. ground (
  arith,
  bit-and j a (2 ^ k),
  bit-pow j k,
  bit-shl j k (bit k a),
  bit_digit (j - k) (bit k a) (bit-le k a),
  bit-le j a,
  bit-le k a,
)

-- Setting all bits above a code of `b` bits.
or_high_ones :
    (c b : ℕ) → b ≤ 32 → c < 2 ^ b → bit_or c (2 ^ 32 - 1 - (2 ^ b - 1)) ≡ 2 ^ 32 - 2 ^ b + c
or_high_ones c b h fits =
    let whole : 2 ^ 32 - 1 - (2 ^ b - 1 - c) ≡ 2 ^ 32 - 2 ^ b + c =
      omega (arith, pow_mono b 32 h, pow_pos b) in
    rw (← whole) (
      bit_ext _ _ λ k. ground (
        arith,
        bit-or k c (2 ^ 32 - 1 - (2 ^ b - 1)),
        bit-not k 32 (2 ^ b - 1),
        bit-not k 32 (2 ^ b - 1 - c),
        bit-not k b c,
        bit-ones k b,
        bit_above k b c,
        bit-le k c,
        pow_mono b 32 h,
        pow_pos b,
      ))

quotient_one : (c p : ℕ) → p ≤ c → c < p + p → c / p ≡ 1
quotient_one c p lo hi = grind arith

-- The digit under the sign bit, of a code that fits.
top_digit : (c b : ℕ) → c < 2 ^ suc b → bit b c ≡ (if ltb c (2 ^ b) then 0 else 1)
top_digit c b fits =
    ground (arith, bit_above b b c, bit_lem b c, quotient_one c (2 ^ b), pow-suc 2 b)

-- The code as the number that its digits stand for in two's complement.
extend_sign_lem :
    (code b : ℕ)
    → b < 32
    → extend_sign code (suc b) ≡ (
        if ltb (code % 2 ^ suc b) (2 ^ b)
        then code % 2 ^ suc b
        else 2 ^ 32 - 2 ^ suc b + code % 2 ^ suc b)
unfolding extend_sign
extend_sign_lem code b h =
    let below : code % 2 ^ suc b < 2 ^ suc b = mod-lt _ (pow_pos (suc b)) in
    let last : suc b - 1 ≡ b = omega arith in
    rw (and_low_mask code (suc b), last, and_pow (code % 2 ^ suc b) b)
      (ground (
        arith,
        top_digit (code % 2 ^ suc b) b below,
        or_high_ones (code % 2 ^ suc b) (suc b) h below,
        pow_pos b,
      ))

-- What `decode` computes for a width of `suc b` bits: the low digits of the code, read as a number
-- from -2 ^ b up to 2 ^ b - 1.
pub decode_lem :
    (code b : ℕ)
    → b < 32
    → code < 2 ^ 32
    → decode code (suc b) ≡ (
        if ltb (code % 2 ^ suc b) (2 ^ b)
        then pos (code % 2 ^ suc b)
        else negsuc (2 ^ suc b - 1 - code % 2 ^ suc b))
unfolding decode
decode_lem code b h fits = elim (Bool-cases (suc b == 32)) [
  | inl whole ↦ let e : b ≡ 31 = ground arith in rw (whole, e) (ground (arith, mod-eq_of_lt fits))
  | inr part ↦
      rw (part, extend_sign_lem code b h)
        (ground (arith, pow_mono (suc b) 31, pow-suc 2 b, mod-lt code (pow_pos (suc b))))
]

-- What `encode` computes: the low digits of the value's remainder by 2 ^ 32.
pub encode_lem : (v : ℤ) (b : ℕ) → b < 32 → encode v (suc b) ≡ to_u32 v % 2 ^ suc b
unfolding encode
encode_lem v b h = elim (Bool-cases (suc b == 32)) [
  | inl whole ↦ let e : b ≡ 31 = ground arith in rw (whole, e) (sym (mod-eq_of_lt (to_u32_lt v)))
  | inr part ↦ rw part (and_low_mask (to_u32 v) (suc b))
]
  where
    to_u32_lt : (u : ℤ) → to_u32 u < 2 ^ 32
    to_u32_lt (pos n) = omega arith
    to_u32_lt (negsuc n) = omega arith
