-- ===== src/Services/Histograms/Operations/Covered.antt =====
-- The registers that the reading operations cover.
use native.Mathlib.Nat.{mod-eq_of_lt, suc-mul}
use fit_fred.Common.{
  ℕ, suc, ◌+◌, ◌*◌, ◌%◌, ◌^◌, ◌≤◌, ◌<◌, ◌≡◌, refl, sym, ap, ◌∙◌, arith, Bytes, [], ◌∷◌, ◌++◌,
  append_assoc, append-nil, List, ◌==◌, if◌then◌else◌, Bool, true, All, Bool-cases, inl, inr,
  length,
}
use fit_fred.Services.BlockRead.Packets.{range, range-append}
use fit_fred.Services.Histograms.Blocks.{BinBlock}
use fit_fred.Services.Histograms.Operations.{
  OperationInfo, add_readout, channel_operations, all_operations, update_operations, elem,
  select_blocks, select_channels, select_histograms,
}

-- The registers of the operations, and those of the blocks that are read out.
abbrev pub registers : List OperationInfo → List ℕ
registers [] = []
registers (o ∷ os) = range true o.base_address o.regblock_size ++ registers os

abbrev pub block_registers : (BinBlock → Bool) → ℕ → List BinBlock → List ℕ
block_registers enabled start [] = []
block_registers enabled start (b ∷ bs) =
    (if enabled b then range true (start + b.base_address) b.reg_block_size else [])
    ++ block_registers enabled start bs

abbrev pub channel_registers : (BinBlock → Bool) → ℕ → ℕ → List (List BinBlock) → List ℕ
channel_registers enabled channel_base channel [] = []
channel_registers enabled channel_base channel (blocks ∷ channels) =
    block_registers enabled (channel * channel_base) blocks
    ++ channel_registers enabled channel_base (suc channel) channels

abbrev Ends : OperationInfo → Type 0
Ends o = o.base_address + o.regblock_size < 2 ^ 32

add_readout-registers :
    (ops : List OperationInfo) (base size : ℕ)
    → All Ends ops
    → base + size < 2 ^ 32
    → (registers (add_readout ops base size) ≡ registers ops ++ range true base size)
      × All Ends (add_readout ops base size)
unfolding add_readout
add_readout-registers [] base size h small = (append-nil (range true base size), (small, tt))
add_readout-registers (last ∷ []) base size (h, hs) small =
    elim (Bool-cases (base == (last.base_address + last.regblock_size) % 2 ^ 32)) [
      | inl e ↦
          let follows : base ≡ last.base_address + last.regblock_size = ground arith in
          let sum : (last.regblock_size + size) % 2 ^ 32 ≡ last.regblock_size + size =
            mod-eq_of_lt (omega arith) in
          rw (e, sum)
            (
              rw
                  (
                    append-nil (range true last.base_address (last.regblock_size + size)),
                    append-nil (range true last.base_address last.regblock_size),
                    follows,
                  )
                  (sym (range-append true last.base_address last.regblock_size size)),
              (omega arith, tt),
            )
      | inr e ↦ rw e (
        rw
            (
              append-nil (range true base size),
              append-nil (range true last.base_address last.regblock_size),
            )
            refl,
        (h, (small, tt)),
      )
    ]
add_readout-registers (o ∷ next ∷ os) base size (h, hs) small =
    let (same, ends) = add_readout-registers (next ∷ os) base size hs small in
    (
      ap (λ r. range true o.base_address o.regblock_size ++ r) same
          ∙ sym (
              append_assoc (range true o.base_address o.regblock_size) (registers (next ∷ os))
                (range true base size)),
      (h, ends),
    )

-- A block lies inside its channel.
abbrev pub IsInside : ℕ → BinBlock → Type 0
IsInside channel_base b = b.base_address + b.reg_block_size ≤ channel_base

channel_operations-registers :
    (channel_base channel : ℕ) (blocks : List BinBlock) (ops : List OperationInfo)
    → All Ends ops
    → All (IsInside channel_base) blocks
    → channel * channel_base + channel_base < 2 ^ 32
    → (registers (channel_operations channel_base channel blocks ops)
        ≡ registers ops ++ block_registers (λ b. b.readout_enabled) (channel * channel_base) blocks)
      × All Ends (channel_operations channel_base channel blocks ops)
unfolding channel_operations
channel_operations-registers channel_base channel [] ops ends inside small =
    (sym (append-nil (registers ops)), ends)
channel_operations-registers channel_base channel (b ∷ bs) ops ends (inside, insides) small =
    let start = channel * channel_base in
    let enabled : BinBlock → Bool = λ b. b.readout_enabled in
    let word : (start + b.base_address) % 2 ^ 32 ≡ start + b.base_address =
      mod-eq_of_lt (omega arith) in
    elim (Bool-cases b.readout_enabled) [
      | inl e ↦
          let (one, fits) =
            add_readout-registers ops (start + b.base_address) b.reg_block_size ends
              (omega arith) in
          let (rest, all) =
            channel_operations-registers channel_base channel bs
              (add_readout ops (start + b.base_address) b.reg_block_size) fits insides small in
          rw (e, word)
            (
              rest
                  ∙ ap (λ r. r ++ block_registers enabled start bs) one
                  ∙ append_assoc (registers ops)
                      (range true (start + b.base_address) b.reg_block_size)
                      (block_registers enabled start bs),
              all,
            )
      | inr e ↦ rw e (channel_operations-registers channel_base channel bs ops ends insides small)
    ]

all_operations-registers :
    (channel_base channel : ℕ) (channels : List (List BinBlock)) (ops : List OperationInfo)
    → All Ends ops
    → All (All (IsInside channel_base)) channels
    → channel * channel_base + length channels * channel_base < 2 ^ 32
    → registers (all_operations channel_base channel channels ops)
      ≡ registers ops ++ channel_registers (λ b. b.readout_enabled) channel_base channel channels
unfolding all_operations
all_operations-registers channel_base channel [] ops ends inside small =
    sym (append-nil (registers ops))
all_operations-registers channel_base channel (blocks ∷ channels) ops ends (inside, insides) small =
    let enabled : BinBlock → Bool = λ b. b.readout_enabled in
    let more = suc-mul (length channels) channel_base in
    let next = suc-mul channel channel_base in
    let (one, fits) =
      channel_operations-registers channel_base channel blocks ops ends inside (omega arith) in
    all_operations-registers channel_base (suc channel) channels
      (channel_operations channel_base channel blocks ops) fits insides (omega arith)
    ∙ ap (λ r. r ++ channel_registers enabled channel_base (suc channel) channels) one
    ∙ append_assoc (registers ops) (block_registers enabled (channel * channel_base) blocks)
        (channel_registers enabled channel_base (suc channel) channels)

-- Selecting changes which blocks are read, and nothing else of them.
select_blocks-registers :
    (names : List Bytes) (start : ℕ) (blocks : List BinBlock)
    → block_registers (λ b. b.readout_enabled) start (select_blocks names blocks)
      ≡ block_registers (λ b. elem b.histogram_name names) start blocks
unfolding select_blocks
select_blocks-registers names start [] = refl
select_blocks-registers names start (b ∷ bs) =
    ap
      (λ r.
        (if elem b.histogram_name names
          then range true (start + b.base_address) b.reg_block_size
          else [])
        ++ r)
      (select_blocks-registers names start bs)

select_blocks-IsInside :
    (names : List Bytes) (channel_base : ℕ) (blocks : List BinBlock)
    → All (IsInside channel_base) blocks
    → All (IsInside channel_base) (select_blocks names blocks)
unfolding select_blocks
select_blocks-IsInside names channel_base [] h = tt
select_blocks-IsInside names channel_base (b ∷ bs) (h, hs) =
    (h, select_blocks-IsInside names channel_base bs hs)

select_channels-registers :
    (names : List Bytes) (channel_base channel : ℕ) (channels : List (List BinBlock))
    → All (All (IsInside channel_base)) channels
    → (channel_registers
          (λ b. b.readout_enabled)
          channel_base
          channel
          (select_channels names channels)
        ≡ channel_registers (λ b. elem b.histogram_name names) channel_base channel channels)
      × All (All (IsInside channel_base)) (select_channels names channels)
      × (length (select_channels names channels) ≡ length channels)
unfolding select_channels
select_channels-registers names channel_base channel [] h = (refl, tt, refl)
select_channels-registers names channel_base channel (blocks ∷ channels) (h, hs) =
    let (same, inside, size) =
      select_channels-registers names channel_base (suc channel) channels hs in
    (
      rw (select_blocks-registers names (channel * channel_base) blocks, same) refl,
      (select_blocks-IsInside names channel_base blocks h, inside),
      ap suc size,
    )

-- For blocks that lie inside their channels, and channels that end below 2 ^ 32: after histograms
-- were selected by their names, the reading operations cover exactly the registers of the blocks
-- whose histogram was selected, channel by channel and in the order of the blocks, each once,
-- whatever was merged.
pub select_histograms-covered :
    (channel_base : ℕ) (names : List Bytes) (channels : List (List BinBlock))
    → All (All (IsInside channel_base)) channels
    → length channels * channel_base < 2 ^ 32
    → registers (select_histograms channel_base names channels).1
      ≡ channel_registers (λ b. elem b.histogram_name names) channel_base 0 channels
unfolding select_histograms update_operations
select_histograms-covered channel_base names channels inside small =
    let (same, insides, size) = select_channels-registers names channel_base 0 channels inside in
    all_operations-registers channel_base 0 (select_channels names channels) [] tt insides
      (rw size (omega arith))
    ∙ same
