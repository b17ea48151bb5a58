-- ===== src/Services/Histograms/Operations.antt =====
-- `PmHistogramData::updateOperations` and `selectHistograms`.
pub mod Covered
use fit_fred.Common.{
  ℕ, suc, ◌+◌, ◌*◌, ◌%◌, ◌^◌, Bytes, codes, [], ◌∷◌, ◌++◌, List, ◌==◌, ◌||◌, if◌then◌else◌, Bool,
  true, false, bytes_eq,
}
use fit_fred.Services.Histograms.Blocks.{BinBlock}

pub record OperationInfo : Type 0 where
  pub base_address : ℕ
  pub regblock_size : ℕ

-- What a block adds to the operations: it extends the last one if it follows on it.
unfoldable pub add_readout : List OperationInfo → ℕ → ℕ → List OperationInfo
add_readout [] base size = record { base_address = base; regblock_size = size } ∷ []
add_readout (last ∷ []) base size =
    if base == (last.base_address + last.regblock_size) % 2 ^ 32
    then record last { regblock_size = (last.regblock_size + size) % 2 ^ 32 } ∷ []
    else last ∷ record { base_address = base; regblock_size = size } ∷ []
add_readout (o ∷ next ∷ os) base size = o ∷ add_readout (next ∷ os) base size

-- The address of a block of a channel.
abbrev pub block_address : ℕ → ℕ → BinBlock → ℕ
block_address channel_base channel block = (channel * channel_base + block.base_address) % 2 ^ 32

unfoldable pub channel_operations : ℕ → ℕ → List BinBlock → List OperationInfo → List OperationInfo
unfolding add_readout
channel_operations channel_base channel [] ops = ops
channel_operations channel_base channel (b ∷ bs) ops =
    let next =
      if b.readout_enabled
      then add_readout ops (block_address channel_base channel b) b.reg_block_size
      else ops in
    channel_operations channel_base channel bs next

-- The loop over the channels from one on.
unfoldable pub all_operations :
    ℕ → ℕ → List (List BinBlock) → List OperationInfo → List OperationInfo
unfolding channel_operations
all_operations channel_base channel [] ops = ops
all_operations channel_base channel (blocks ∷ channels) ops =
    all_operations channel_base (suc channel) channels
      (channel_operations channel_base channel blocks ops)

unfoldable pub update_operations : ℕ → List (List BinBlock) → List OperationInfo
unfolding all_operations
update_operations channel_base channels = all_operations channel_base 0 channels []

-- `std::find` in a list of names.
abbrev pub elem : Bytes → List Bytes → Bool
elem name [] = false
elem name (n ∷ ns) = bytes_eq n name || elem name ns

unfoldable pub select_blocks : List Bytes → List BinBlock → List BinBlock
select_blocks names [] = []
select_blocks names (b ∷ bs) =
    record b { readout_enabled = elem b.histogram_name names } ∷ select_blocks names bs

unfoldable pub select_channels : List Bytes → List (List BinBlock) → List (List BinBlock)
unfolding select_blocks
select_channels names [] = []
select_channels names (blocks ∷ channels) =
    select_blocks names blocks ∷ select_channels names channels

-- `selectHistograms`, but for the text of its answer: the channels and the operations.
unfoldable pub select_histograms :
    ℕ → List Bytes → List (List BinBlock) → List (List BinBlock) × List OperationInfo
unfolding select_channels update_operations
select_histograms channel_base names channels =
    let selected = select_channels names channels in
    (selected, update_operations channel_base selected)
