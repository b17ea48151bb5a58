-- ===== src/Services/Histograms/Readout.antt =====
-- `PmHistogramData::storeReadoutData`: where the words of one reading operation are stored.
pub mod Stored
use fit_fred.Common.{
  ℕ, zero, suc, ◌+◌, ◌-◌, ◌/◌, ◌%◌, ◌^◌, [], ◌∷◌, ◌++◌, Option, none, some, List, leb, ltb, ◌==◌,
  ◌&&◌, if◌then◌else◌, Bool, true, false, length, drop, take, get_elem?,
}
use fit_fred.Services.Histograms.Blocks.{BinBlock}

-- The position lies inside the block.
abbrev pub covers : BinBlock → ℕ → Bool
covers b position =
    leb b.base_address position && ltb position ((b.base_address + b.reg_block_size) % 2 ^ 32)

-- `std::copy` of words to the end of a block.
abbrev pub copied : ℕ → List ℕ → BinBlock → BinBlock
copied offset words b = record b { words = take offset b.words ++ words }

-- The loop over the blocks, with `current` words stored. The result is the blocks and the number of
-- words that are stored, or nothing where the copy would leave the words.
unfoldable pub store_blocks : ℕ → ℕ → List ℕ → List BinBlock → List BinBlock × Option ℕ
store_blocks relative current words [] = ([], some current)
store_blocks relative current words (b ∷ bs) =
    let position = relative + current in
    let offset = position - b.base_address in
    let copy_length = length b.words - offset in
    let skipped = store_blocks relative current words bs in
    let stored = copied offset (take copy_length (drop current words)) b in
    let after = store_blocks relative (current + copy_length) words bs in
    if covers b position
    then if ltb current (length words) && leb (current + copy_length) (length words)
      then if leb (length words) (current + copy_length)
        then (stored ∷ bs, some (current + copy_length))
        else (stored ∷ after.0, after.1)
      else (b ∷ bs, none)
    else (b ∷ skipped.0, skipped.1)

-- The channel at an index; an index behind the last channel, which C++ does not define, changes
-- nothing here and is a failure.
unfoldable pub store_channel : ℕ → ℕ → List ℕ → List (List BinBlock) → List (List BinBlock) × Bool
unfolding store_blocks
store_channel channel relative words [] = ([], false)
store_channel zero relative words (blocks ∷ channels) =
    let (stored, count) = store_blocks relative 0 words blocks in
    (stored ∷ channels, elim count [ none ↦ false | some n ↦ n == length words ])
store_channel (suc channel) relative words (blocks ∷ channels) =
    let (rest, success) = store_channel channel relative words channels in (blocks ∷ rest, success)

unfoldable pub store_readout_data :
    ℕ → ℕ → List ℕ → List (List BinBlock) → List (List BinBlock) × Bool
unfolding store_channel
store_readout_data channel_base base words channels =
    store_channel (base / channel_base) (base % channel_base) words channels
