-- ===== src/Utils/TwosComplement/RoundTrip.antt =====
-- The two directions of mapi/include/utils/utils.h's two's complement undo one another.
use native.Mathlib.Nat.{pow-suc, mod-eq_of_lt}
use fit_fred.Common.{ℕ, suc, ◌-◌, ◌%◌, ◌^◌, ◌≤◌, ◌<◌, ◌≡◌, arith}
use fit_fred.Common.Int.{ℤ, pos, negsuc, to_u32, ◌≤ℤ◌}
use fit_fred.Bits.Fields.{bit_ext, bit-mod, bit-not, pow_pos, pow_mono}
use fit_fred.Utils.TwosComplement.{encode, decode, decode_lem, encode_lem}

-- The low digits of a complement in 32 bits.
not-mod : (n l : ℕ) → l ≤ 32 → n < 2 ^ l → (2 ^ 32 - 1 - n) % 2 ^ l ≡ 2 ^ l - 1 - n
not-mod n l h fits = bit_ext _ _ λ k.
    ground (arith, bit-mod k l (2 ^ 32 - 1 - n), bit-not k 32 n, bit-not k l n, pow_mono l 32 h)

-- The code of a negative number.
negative_code :
    (n b : ℕ) → b < 32 → n < 2 ^ suc b → to_u32 (negsuc n) % 2 ^ suc b ≡ 2 ^ suc b - 1 - n
negative_code n b h fits =
    let small : n < 2 ^ 32 = omega (arith, pow_mono (suc b) 32 h) in
    rw (mod-eq_of_lt small) (not-mod n (suc b) h fits)

-- For at most 32 bits: every value that `b + 1` bits can hold in two's complement is read back from
-- its code.
pub decode-encode :
    (v : ℤ) (b : ℕ)
    → b < 32
    → negsuc (2 ^ b - 1) ≤ℤ v
    → v ≤ℤ pos (2 ^ b - 1)
    → decode (encode v (suc b)) (suc b) ≡ v
decode-encode (pos n) b h lo hi =
    let small : n % 2 ^ 32 ≡ n = mod-eq_of_lt (omega (arith, pow_mono b 32, pow_pos b)) in
    let code : n % 2 ^ suc b ≡ n = mod-eq_of_lt (omega (arith, pow-suc 2 b, pow_pos b)) in
    rw (encode_lem (pos n) b h, small, code)
      (ground (arith, decode_lem n b h, code, pow_pos b, pow_mono b 32))
decode-encode (negsuc n) b h lo hi =
    let fits : n < 2 ^ suc b = omega (arith, pow-suc 2 b, pow_pos b) in
    let same : (2 ^ suc b - 1 - n) % 2 ^ suc b ≡ 2 ^ suc b - 1 - n =
      mod-eq_of_lt (omega (arith, pow_pos (suc b))) in
    rw (encode_lem (negsuc n) b h, negative_code n b h fits)
      (ground (
        arith,
        decode_lem (2 ^ suc b - 1 - n) b h,
        same,
        pow-suc 2 b,
        pow_pos b,
        pow_mono (suc b) 32 h,
      ))
