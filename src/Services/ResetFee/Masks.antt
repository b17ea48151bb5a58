-- ===== src/Services/ResetFee/Masks.antt =====
-- The masks that `ResetFEE::updatePmSpiMask` computes: the links of the PMs that are there, and the
-- channels of each side.
pub mod Bits
pub mod Loop
use fit_fred.Common.{
  ℕ, zero, suc, ◌+◌, ◌-◌, ◌*◌, ◌/◌, ◌%◌, ◌^◌, bit_and, bit_or, [], ◌∷◌, List, ltb, leb, ◌==◌, ◌&&◌,
  if◌then◌else◌, Bool, true, false, not,
}

pub record Masks : Type 0 where
  pub spi_mask : ℕ
  pub channel_mask_a : ℕ
  pub channel_mask_c : ℕ

-- `isConnected[idx]` after its mask bit was looked at.
abbrev pub is_linked : ℕ → Bool → ℕ → Bool
is_linked idx connected mask = connected && not (bit_and (mask / 2 ^ idx) 1 == 0)

-- One round of the loop.
unfoldable pub mask_step : Bool → ℕ → Bool → Masks → Masks
mask_step initialized idx connected m =
    let mask = if connected then m.spi_mask else bit_and m.spi_mask (2 ^ 32 - 1 - 2 ^ idx) in
    let linked = is_linked idx connected m.spi_mask in
    let add_a =
      if linked && not (leb 10 idx) && not initialized
      then bit_or m.channel_mask_a (2 ^ idx)
      else m.channel_mask_a in
    let add_c =
      if linked && leb 10 idx && not initialized
      then bit_or m.channel_mask_c (2 ^ (idx - 10))
      else m.channel_mask_c in
    record { spi_mask = mask; channel_mask_a = add_a; channel_mask_c = add_c }

-- The loop over `isConnected`, from an index on.
unfoldable pub mask_loop : Bool → ℕ → List Bool → Masks → Masks
unfolding mask_step
mask_loop initialized idx [] m = m
mask_loop initialized idx (connected ∷ rest) m =
    mask_loop initialized (suc idx) rest (mask_step initialized idx connected m)

abbrev pub no_flags : ℕ → List Bool
no_flags zero = []
no_flags (suc n) = false ∷ no_flags n

-- `isConnected[idx] = true`.
abbrev pub set_flag : ℕ → List Bool → List Bool
set_flag idx [] = []
set_flag zero (f ∷ fs) = true ∷ fs
set_flag (suc idx) (f ∷ fs) = f ∷ set_flag idx fs

-- The mask that `seqMaskPMLink` writes.
unfoldable pub link_mask : ℕ → ℕ → Bool → ℕ
link_mask current idx masked =
    bit_or (bit_and current (2 ^ 32 - 1 - 2 ^ idx)) (if masked then 2 ^ idx else 0)
