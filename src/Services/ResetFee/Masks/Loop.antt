-- ===== src/Services/ResetFee/Masks/Loop.antt =====
-- The masks after the loop over all links.
use fit_fred.Common.{
  ℕ, zero, suc, ◌+◌, ◌-◌, ◌^◌, ◌≤◌, ◌<◌, max, ◌≡◌, refl, arith, [], ◌∷◌, List, ltb, ◌==◌, ◌&&◌,
  ◌||◌, if◌then◌else◌, Bool, false, not, length, Bool-cases, inl, inr,
}
use fit_fred.Bits.Fields.{bit, bit-zero, bit_above, lt_of_bits}
use fit_fred.Services.ResetFee.Masks.{Masks, mask_step, mask_loop}
use fit_fred.Services.ResetFee.Masks.Bits.{flag, step-spi, step-a, step-c}

-- Whether the link `k` is among those of the loop that are there, or that are not.
abbrev present : ℕ → List Bool → ℕ → Bool
present idx [] k = false
present idx (f ∷ fs) k = (k == idx && f) || present (suc idx) fs k

abbrev missing : ℕ → List Bool → ℕ → Bool
missing idx [] k = false
missing idx (f ∷ fs) k = (k == idx && not f) || missing (suc idx) fs k

present_lem :
    (idx : ℕ) (fs : List Bool) (k : ℕ)
    → present idx fs k ≡ (if ltb k idx then false else flag fs (k - idx))
present_lem idx [] k = ground arith
present_lem idx (f ∷ fs) k = elim (Bool-cases (ltb k idx)) [
  | inl below ↦ ground (arith, present_lem (suc idx) fs k)
  | inr above ↦ elim (Bool-cases (k == idx)) [
    | inl e ↦
        let here : k - idx ≡ 0 = ground arith in
        rw (here, present_lem (suc idx) fs k) (ground arith)
    | inr e ↦
        let next : k - idx ≡ suc (k - suc idx) = ground arith in
        rw (next, present_lem (suc idx) fs k) (ground arith)
  ]
]

missing_lem :
    (idx : ℕ) (fs : List Bool) (k : ℕ)
    → missing idx fs k
      ≡ (if ltb k idx then false else (ltb (k - idx) (length fs) && not (flag fs (k - idx))))
missing_lem idx [] k = ground arith
missing_lem idx (f ∷ fs) k = elim (Bool-cases (ltb k idx)) [
  | inl below ↦ ground (arith, missing_lem (suc idx) fs k)
  | inr above ↦ elim (Bool-cases (k == idx)) [
    | inl e ↦
        let here : k - idx ≡ 0 = ground arith in
        rw (here, missing_lem (suc idx) fs k) (ground arith)
    | inr e ↦
        let next : k - idx ≡ suc (k - suc idx) = ground arith in
        rw (next, missing_lem (suc idx) fs k) (ground arith)
  ]
]

present_first : (fs : List Bool) (k : ℕ) → present 0 fs k ≡ flag fs k
present_first fs k =
    let same : k - 0 ≡ k = omega arith in
    let start : ltb k 0 ≡ false = ground arith in rw (present_lem 0 fs k, start, same) refl

missing_first : (fs : List Bool) (k : ℕ) → missing 0 fs k ≡ (ltb k (length fs) && not (flag fs k))
missing_first fs k =
    let same : k - 0 ≡ k = omega arith in
    let start : ltb k 0 ≡ false = ground arith in rw (missing_lem 0 fs k, start, same) refl

flag_outside : (fs : List Bool) (j : ℕ) → length fs ≤ j → flag fs j ≡ false
flag_outside [] j h = refl
flag_outside (f ∷ fs) zero h = absurd (omega arith)
flag_outside (f ∷ fs) (suc j) h = flag_outside fs j (omega arith)

step-fits :
    (initialized : Bool) (idx : ℕ) (connected : Bool) (m : Masks)
    → idx < 32
    → m.spi_mask < 2 ^ 32
    → (mask_step initialized idx connected m).spi_mask < 2 ^ 32
step-fits initialized idx connected m h fits = lt_of_bits _ 32 λ k far.
    ground
      (arith, step-spi initialized idx connected m k h fits, bit_above k 32 m.spi_mask fits far)

loop-spi :
    (initialized : Bool) (idx : ℕ) (fs : List Bool) (m : Masks) (k : ℕ)
    → idx + length fs ≤ 32
    → m.spi_mask < 2 ^ 32
    → bit k (mask_loop initialized idx fs m).spi_mask
      ≡ (if missing idx fs k then 0 else bit k m.spi_mask)
unfolding mask_loop
loop-spi initialized idx [] m k h fits = refl
loop-spi initialized idx (f ∷ fs) m k h fits =
    let rest =
      loop-spi initialized (suc idx) fs (mask_step initialized idx f m) k (omega arith)
        (step-fits initialized idx f m (omega arith) fits) in
    let one = step-spi initialized idx f m k (omega arith) fits in ground arith

loop-a :
    (idx : ℕ) (fs : List Bool) (m : Masks) (k : ℕ)
    → idx + length fs ≤ 32
    → m.spi_mask < 2 ^ 32
    → bit k (mask_loop false idx fs m).channel_mask_a ≡ (
        if ltb k 10 && present idx fs k
        then max (bit k m.channel_mask_a) (bit k m.spi_mask)
        else bit k m.channel_mask_a)
unfolding mask_loop
loop-a idx [] m k h fits = ground arith
loop-a idx (f ∷ fs) m k h fits =
    let next = mask_step false idx f m in
    let rest =
      loop-a (suc idx) fs next k (omega arith) (step-fits false idx f m (omega arith) fits) in
    let spi = step-spi false idx f m k (omega arith) fits in
    let a = step-a idx f m k in let later = present_lem (suc idx) fs k in ground arith

loop-c :
    (idx : ℕ) (fs : List Bool) (m : Masks) (k : ℕ)
    → idx + length fs ≤ 32
    → m.spi_mask < 2 ^ 32
    → bit k (mask_loop false idx fs m).channel_mask_c ≡ (
        if present idx fs (k + 10)
        then max (bit k m.channel_mask_c) (bit (k + 10) m.spi_mask)
        else bit k m.channel_mask_c)
unfolding mask_loop
loop-c idx [] m k h fits = refl
loop-c idx (f ∷ fs) m k h fits =
    let next = mask_step false idx f m in
    let rest =
      loop-c (suc idx) fs next k (omega arith) (step-fits false idx f m (omega arith) fits) in
    let spi = step-spi false idx f m (k + 10) (omega arith) fits in
    let c = step-c idx f m k in let later = present_lem (suc idx) fs (k + 10) in ground arith

-- For the 20 flags and a 32-bit SPI mask, before the masks are initialised: the new SPI mask has
-- the bits of the links that are there and leaves the bits above the links as they were, and the
-- channel masks of the sides A and C are the lower and the upper ten of its 20 link bits.
pub mask_loop-bits :
    (fs : List Bool) (spi_mask k : ℕ)
    → length fs ≡ 20
    → spi_mask < 2 ^ 32
    → let result =
        mask_loop false 0 fs
          (record { spi_mask = spi_mask; channel_mask_a = 0; channel_mask_c = 0 }) in
      (bit k result.spi_mask ≡ (if ltb k 20 && not (flag fs k) then 0 else bit k spi_mask))
      × (bit k result.channel_mask_a ≡ (if ltb k 10 then bit k result.spi_mask else 0))
      × (bit k result.channel_mask_c ≡ (if ltb k 10 then bit (k + 10) result.spi_mask else 0))
mask_loop-bits fs spi_mask k size fits =
    let start : Masks = record { spi_mask = spi_mask; channel_mask_a = 0; channel_mask_c = 0 } in
    let spi = loop-spi false 0 fs start k (omega arith) fits in
    let upper = loop-spi false 0 fs start (k + 10) (omega arith) fits in
    let a = loop-a 0 fs start k (omega arith) fits in
    let c = loop-c 0 fs start k (omega arith) fits in
    let kept = missing_first fs k in
    let kept' = missing_first fs (k + 10) in
    let linked = present_first fs k in
    let linked' = present_first fs (k + 10) in
    let none_set = bit-zero k in
    let outside = flag_outside fs (k + 10) in
    let below = flag_outside fs k in
    (
      rw (spi, kept, size) (ground arith),
      rw (a, spi, kept, linked, size, none_set) (ground arith),
      rw (c, upper, kept', linked', size, none_set) (ground arith),
    )
