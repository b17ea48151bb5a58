-- ===== src/Services/Histograms/Blocks.antt =====
-- `BinBlock`, and the blocks of the channels of a PM
-- (mapi/src/services/histograms/PmHistogramData.cpp).
pub mod Complete
use fit_fred.Common.{
  ℕ, zero, suc, ◌+◌, ◌*◌, ◌%◌, ◌^◌, Bytes, codes, [], ◌∷◌, ◌++◌, Option, none, some, List, ltb,
  ◌==◌, ◌||◌, if◌then◌else◌, Bool, true, false, bytes_eq,
}
use fit_fred.Common.Int.{ℤ}
use fit_fred.FitData.Histograms.{Histogram, HistogramBlock, Direction, positive, negative}

pub record BinBlock : Type 0 where
  pub histogram_name : Bytes
  pub base_address : ℕ
  pub reg_block_size : ℕ
  pub start_bin : ℤ
  pub bins_per_register : ℕ
  pub is_negative_direction : Bool
  pub readout_enabled : Bool
  pub words : List ℕ

pub replicate {ℓ} : {A : Type ℓ} → ℕ → A → List A
replicate zero a = []
replicate (suc n) a = a ∷ replicate n a

abbrev is_negative : Direction → Bool
is_negative positive = false
is_negative negative = true

-- The constructor: the data are as many words as the block has registers.
bin_block : Bytes → HistogramBlock → BinBlock
unfolding replicate
bin_block name block = record {
  histogram_name = name;
  base_address = block.base_address;
  reg_block_size = block.reg_block_size;
  start_bin = block.start_bin;
  bins_per_register = block.bins_per_register;
  is_negative_direction = is_negative block.direction;
  readout_enabled = false;
  words = replicate block.reg_block_size 0;
}

-- `std::sort` by the address. Where addresses are equal it leaves the order open; here it is kept.
insert_block : BinBlock → List BinBlock → List BinBlock
insert_block b [] = b ∷ []
insert_block b (c ∷ cs) =
    if ltb c.base_address b.base_address then c ∷ insert_block b cs else b ∷ c ∷ cs

unfoldable pub sort_blocks : List BinBlock → List BinBlock
unfolding insert_block
sort_blocks [] = []
sort_blocks (b ∷ bs) = insert_block b (sort_blocks bs)

-- The blocks of the histograms; nothing where an optional half that is not there is dereferenced.
unfoldable pub all_blocks : List Histogram → Option (List BinBlock)
unfolding bin_block
all_blocks [] = some []
all_blocks (h ∷ hs) = elim h.negative_bins [
  | none ↦ none
  | some n ↦ elim h.positive_bins [
    | none ↦ none
    | some p ↦ elim (all_blocks hs) [
      | none ↦ none
      | some blocks ↦ some (bin_block h.name n ∷ bin_block h.name p ∷ blocks)
    ]
  ]
]

abbrev pub channel_count : ℕ
channel_count = 12

-- `fetchChannelBlocks`: the same blocks in each channel.
unfoldable pub fetch_channel_blocks : List Histogram → Option (List (List BinBlock))
unfolding all_blocks sort_blocks replicate
fetch_channel_blocks histograms = elim (all_blocks histograms) [
  | none ↦ none
  | some blocks ↦ some (replicate channel_count (sort_blocks blocks))
]
