-- ===== src/Board/Codes.antt =====
-- The codes of a parameter's values, and the field of the register that takes them.
use native.Mathlib.Nat.{mod-eq_of_lt, mod-lt}
use fit_fred.Common.{ℕ, zero, suc, ◌+◌, ◌-◌, ◌*◌, ◌/◌, ◌^◌, ◌≤◌, ◌<◌, ◌≡◌, arith}
use fit_fred.Common.Int.{ℤ, pos, negsuc, ◌≤ℤ◌, to_u32}
use fit_fred.Bits.Fields.{bit_ext, bit-shl, bit-shr, bit_above, lt_of_bits, pow_pos, pow_mono}
use fit_fred.Utils.TwosComplement.{encode, decode, encode_lem}
use fit_fred.Utils.TwosComplement.RoundTrip.{decode-encode}
use fit_fred.Board.Defs.{ParameterInfo, ValueEncoding, unsigned, signed, value_of_code, code_of}

-- The values that a field of `length` bits can hold.
abbrev pub Holds : ValueEncoding → ℕ → ℤ → ℤ → Type 0
Holds unsigned length lo hi = (pos 0 ≤ℤ lo) × (hi ≤ℤ pos (2 ^ length - 1))
Holds signed length lo hi =
    (negsuc (2 ^ (length - 1) - 1) ≤ℤ lo) × (hi ≤ℤ pos (2 ^ (length - 1) - 1))

-- What a sound entry of the register map says: a field inside the word, and bounds that it can hold.
pub record IsDescribed {Double : Type 0} (info : ParameterInfo Double) : Type 0 where
  pub some_bit : 1 ≤ info.bit_length
  pub inside_word : info.start_bit + info.bit_length ≤ 32
  pub holds : Holds info.value_encoding info.bit_length info.min_value info.max_value

-- A value within the parameter's bounds.
abbrev pub InRange : {Double : Type 0} → ParameterInfo Double → ℤ → Type 0
InRange info v = (info.min_value ≤ℤ v) × (v ≤ℤ info.max_value)

signed_code :
    (v : ℤ) (l : ℕ)
    → 1 ≤ l
    → l ≤ 32
    → negsuc (2 ^ (l - 1) - 1) ≤ℤ v
    → v ≤ℤ pos (2 ^ (l - 1) - 1)
    → (encode v l < 2 ^ l) × (decode (encode v l) l ≡ v)
signed_code v zero h w lo hi = absurd (omega arith)
signed_code v (suc b) h w lo hi =
    let last : suc b - 1 ≡ b = omega arith in
    (
      rw (encode_lem v b w) (mod-lt _ (pow_pos (suc b))),
      decode-encode v b w (rw last at lo) (rw last at hi),
    )

unsigned_code :
    (v : ℤ) (l : ℕ)
    → l ≤ 32
    → pos 0 ≤ℤ v
    → v ≤ℤ pos (2 ^ l - 1)
    → (to_u32 v < 2 ^ l) × (pos (to_u32 v) ≡ v)
unsigned_code (pos n) l w lo hi =
    ground (arith, mod-eq_of_lt {n = n} {m = 2 ^ 32}, pow_mono l 32 w, pow_pos l)
unsigned_code (negsuc n) l w lo hi = absurd (omega arith)

-- For a parameter whose entry is described soundly: a value within its limits has a code that fits
-- the field, and the code stands for the value.
pub value_code :
    {Double : Type 0} (info : ParameterInfo Double) (e : ValueEncoding) (v : ℤ)
    → info.value_encoding ≡ e
    → IsDescribed info
    → InRange info v
    → (code_of info v < 2 ^ info.bit_length) × (value_of_code info (code_of info v) ≡ v)
unfolding code_of value_of_code
value_code info unsigned v q d r =
    let bounds = rw q at d.holds in
    let code : code_of info v ≡ to_u32 v = rw (code_of, q) in
    let value : value_of_code info (to_u32 v) ≡ pos (to_u32 v) = rw (value_of_code, q) in
    rw (code, value) (unsigned_code v info.bit_length (omega arith) (omega arith) (omega arith))
value_code info signed v q d r =
    let bounds = rw q at d.holds in
    let code : code_of info v ≡ encode v info.bit_length = rw (code_of, q) in
    let value : value_of_code info (encode v info.bit_length)
        ≡ decode (encode v info.bit_length) info.bit_length =
      rw (value_of_code, q) in
    rw (code, value)
      (signed_code v info.bit_length d.some_bit (omega arith) (omega arith) (omega arith))

pub shl-lt : (c f l : ℕ) → f + l ≤ 32 → c < 2 ^ l → c * 2 ^ f < 2 ^ 32
shl-lt c f l h fits =
    lt_of_bits _ 32 λ k far. ground (arith, bit-shl k f c, bit_above (k - f) l c fits)

pub shr-shl : (c f : ℕ) → c * 2 ^ f / 2 ^ f ≡ c
shr-shl c f = bit_ext _ _ λ k. ground (arith, bit-shr k f (c * 2 ^ f), bit-shl (f + k) f c)
