-- ===== src/Services/ResetFee/Masks/Bits.antt =====
-- The bits of the masks.
use fit_fred.Common.{
  ℕ, zero, suc, ◌+◌, ◌-◌, ◌/◌, ◌%◌, ◌^◌, ◌<◌, bit_and, max, ◌≡◌, refl, arith, [], ◌∷◌, List, ltb,
  ◌==◌, ◌&&◌, if◌then◌else◌, Bool, true, false, not, Bool-cases, inl, inr,
}
use fit_fred.Bits.Fields.{
  bit, bit-le, bit-zero, bit-and, bit-or, bit-not, bit-pow, bit_digit, bit_lem, pow_mono, bit_ext,
  bit_above,
}
use fit_fred.Services.ResetFee.Masks.{Masks, is_linked, mask_step}

-- Whether the flag at an index is set.
abbrev pub flag : List Bool → ℕ → Bool
flag [] j = false
flag (f ∷ fs) zero = f
flag (f ∷ fs) (suc j) = flag fs j

pow_strict : (idx : ℕ) → idx < 32 → 2 ^ idx < 2 ^ 32
pow_strict idx h = let below = pow_mono idx 31 (omega arith) in omega arith

bit-cleared :
    (k idx mask : ℕ)
    → idx < 32
    → mask < 2 ^ 32
    → bit k (bit_and mask (2 ^ 32 - 1 - 2 ^ idx)) ≡ (if k == idx then 0 else bit k mask)
bit-cleared k idx mask h fits = ground (
  arith,
  bit-and k mask (2 ^ 32 - 1 - 2 ^ idx),
  bit-not k 32 (2 ^ idx) (pow_strict idx h),
  bit-pow k idx,
  bit-le k mask,
  bit_above k 32 mask fits,
)

lowest : (a : ℕ) → bit_and a 1 ≡ a % 2
lowest a =
    bit_ext _ _ λ k.
      ground (arith, bit-and k a 1, bit_digit k 1, bit_digit k (a % 2), bit-zero k, bit_lem k a)

is_linked_lem :
    (idx : ℕ) (connected : Bool) (mask : ℕ)
    → is_linked idx connected mask ≡ (connected && (bit idx mask == 1))
is_linked_lem idx false mask = refl
is_linked_lem idx true mask =
    let low = lowest (mask / 2 ^ idx) in let shifted = bit_lem idx mask in ground arith

-- What one round does to a bit of each mask.
pub step-spi :
    (initialized : Bool) (idx : ℕ) (connected : Bool) (m : Masks) (k : ℕ)
    → idx < 32
    → m.spi_mask < 2 ^ 32
    → bit k (mask_step initialized idx connected m).spi_mask
      ≡ (if k == idx && not connected then 0 else bit k m.spi_mask)
unfolding mask_step
step-spi initialized idx true m k h fits = ground arith
step-spi initialized idx false m k h fits = ground (arith, bit-cleared k idx m.spi_mask h fits)

pub step-a :
    (idx : ℕ) (connected : Bool) (m : Masks) (k : ℕ)
    → bit k (mask_step false idx connected m).channel_mask_a ≡ (
        if k == idx && ltb idx 10 && connected
        then max (bit k m.channel_mask_a) (bit k m.spi_mask)
        else bit k m.channel_mask_a)
unfolding mask_step
step-a idx false m k = ground arith
step-a idx true m k = elim (Bool-cases (k == idx)) [
  | inl e ↦
      let same : k ≡ idx = ground arith in
      rw (same, is_linked_lem idx true m.spi_mask)
        (ground (
          arith,
          bit-or idx m.channel_mask_a (2 ^ idx),
          bit-pow idx idx,
          bit-le idx m.spi_mask,
          bit-le idx m.channel_mask_a,
        ))
  | inr e ↦ rw e (
      ground (arith, bit-or k m.channel_mask_a (2 ^ idx), bit-pow k idx, bit-le k m.channel_mask_a))
]

pub step-c :
    (idx : ℕ) (connected : Bool) (m : Masks) (k : ℕ)
    → bit k (mask_step false idx connected m).channel_mask_c ≡ (
        if k + 10 == idx && connected
        then max (bit k m.channel_mask_c) (bit (k + 10) m.spi_mask)
        else bit k m.channel_mask_c)
unfolding mask_step
step-c idx false m k = ground arith
step-c idx true m k = elim (Bool-cases (k + 10 == idx)) [
  | inl e ↦
      let same : idx ≡ k + 10 = ground arith in
      let shift : k + 10 - 10 ≡ k = omega arith in
      rw (same, is_linked_lem (k + 10) true m.spi_mask, shift)
        (ground (
          arith,
          bit-or k m.channel_mask_c (2 ^ k),
          bit-pow k k,
          bit-le (k + 10) m.spi_mask,
          bit-le k m.channel_mask_c,
        ))
  | inr e ↦ rw e (
      ground (
        arith,
        bit-or k m.channel_mask_c (2 ^ (idx - 10)),
        bit-pow k (idx - 10),
        bit-le k m.channel_mask_c,
      ))
]
