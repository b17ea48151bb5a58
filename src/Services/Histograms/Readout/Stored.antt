-- ===== src/Services/Histograms/Readout/Stored.antt =====
-- The words of a run of blocks are stored where they belong.
use native.Mathlib.Nat.{mod-eq_of_lt, mul-add-div_right, mul-add-mod_self_right, div-eq_of_lt}
use fit_fred.Common.{
  ℕ, ◌+◌, ◌-◌, ◌*◌, ◌/◌, ◌%◌, ◌^◌, ◌≤◌, ◌<◌, ◌≡◌, refl, sym, ap, ◌∙◌, arith, [], ◌∷◌, ◌++◌,
  append-nil, append_assoc, some, List, leb, ltb, ◌==◌, ◌&&◌, if◌then◌else◌, true, false, length,
  length-append, drop-append, take, All,
}
use fit_fred.Services.Histograms.Blocks.{BinBlock}
use fit_fred.Services.Histograms.Readout.{covers, store_blocks, store_channel, store_readout_data}

-- A block with the words for it.
abbrev pub Filled : Type 0
Filled = BinBlock × List ℕ

-- Blocks that follow on each other from a position on, with as many words as registers.
abbrev pub IsRun : ℕ → List Filled → Type 0
IsRun position [] = Unit
IsRun position ((b, words) ∷ run) =
    (b.base_address ≡ position)
    × (length b.words ≡ b.reg_block_size)
    × (length words ≡ b.reg_block_size)
    × (1 ≤ b.reg_block_size)
    × (b.base_address + b.reg_block_size < 2 ^ 32)
    × IsRun (position + b.reg_block_size) run

abbrev pub blocks_of : List Filled → List BinBlock
blocks_of [] = []
blocks_of ((b, words) ∷ run) = b ∷ blocks_of run

abbrev pub words_of : List Filled → List ℕ
words_of [] = []
words_of ((b, words) ∷ run) = words ++ words_of run

abbrev pub filled : List Filled → List BinBlock
filled [] = []
filled ((b, words) ∷ run) = record b { words = words } ∷ filled run

-- A block that ends at or before a position.
abbrev pub IsBefore : ℕ → BinBlock → Type 0
IsBefore position b = (b.base_address + b.reg_block_size ≤ position) × (position < 2 ^ 32)

take-append : (xs ys : List ℕ) → take (length xs) (xs ++ ys) ≡ xs
take-append [] ys = refl
take-append (x ∷ xs) ys = ap (λ r. x ∷ r) (take-append xs ys)

-- One block of a run: it takes its words, and what is left goes on behind it.
store_blocks-block :
    (relative : ℕ) (done words more : List ℕ) (b : BinBlock) (bs : List BinBlock)
    → b.base_address ≡ relative + length done
    → length b.words ≡ b.reg_block_size
    → length words ≡ b.reg_block_size
    → 1 ≤ b.reg_block_size
    → b.base_address + b.reg_block_size < 2 ^ 32
    → store_blocks relative (length done) (done ++ (words ++ more)) (b ∷ bs) ≡ (
        if leb (length more) 0
        then (record b { words = words } ∷ bs, some (length (done ++ words)))
        else (
          record b { words = words }
              ∷ (store_blocks relative (length (done ++ words)) ((done ++ words) ++ more) bs).0,
          (store_blocks relative (length (done ++ words)) ((done ++ words) ++ more) bs).1,
        ))
unfolding store_blocks
store_blocks-block relative done words more b bs at_position size enough some_word word =
    let all = length-append done (words ++ more) in
    let rest = length-append words more in
    let stored = length-append done words in
    let offset : relative + length done - b.base_address ≡ 0 = omega arith in
    let count : length b.words - 0 ≡ length words = omega arith in
    let bound : (b.base_address + b.reg_block_size) % 2 ^ 32 ≡ b.base_address + b.reg_block_size =
      mod-eq_of_lt word in
    let inside : covers b (relative + length done) ≡ true = rw bound (ground arith) in
    let in_range : (ltb (length done) (length (done ++ (words ++ more)))
          && leb (length done + length words) (length (done ++ (words ++ more))))
        ≡ true =
      ground arith in
    let end : leb (length (done ++ (words ++ more))) (length done + length words)
        ≡ leb (length more) 0 =
      ground arith in
    rw
      (
        store_blocks,
        inside,
        offset,
        count,
        in_range,
        end,
        drop-append done (words ++ more),
        take-append words more,
        append_assoc done words more,
        stored,
      )
      refl

store_blocks-run :
    (relative : ℕ) (done : List ℕ) (b : BinBlock) (words : List ℕ) (run : List Filled)
    (after : List BinBlock)
    → IsRun (relative + length done) ((b, words) ∷ run)
    → store_blocks relative
        (length done)
        (done ++ words_of ((b, words) ∷ run))
        (blocks_of ((b, words) ∷ run) ++ after)
      ≡ (filled ((b, words) ∷ run) ++ after, some (length (done ++ words_of ((b, words) ∷ run))))
store_blocks-run relative done b words [] after (at_position, size, enough, some_word, word, rest) =
    store_blocks-block relative done words [] b after at_position size enough some_word word
    ∙ rw (append-nil words) refl
store_blocks-run relative done b words ((c, more) ∷ run) after
      (at_position, size, enough, some_word, word, rest) =
    let stored = length-append done words in
    let next : relative + length done + b.reg_block_size ≡ relative + length (done ++ words) =
      omega arith in
    let (_, _, some_more, positive, _, _) = rest in
    let sizes = length-append more (words_of run) in
    let left : leb (length (more ++ words_of run)) 0 ≡ false = ground arith in
    store_blocks-block relative done words (more ++ words_of run) b (c ∷ (blocks_of run ++ after))
      at_position size enough some_word word
    ∙ rw (left, store_blocks-run relative (done ++ words) c more run after (rw next at rest))
        (rw (append_assoc done words (more ++ words_of run)) refl)

-- The blocks before the run are passed over.
store_blocks-before :
    (relative : ℕ) (words : List ℕ) (before rest : List BinBlock)
    → All (IsBefore relative) before
    → store_blocks relative 0 words (before ++ rest)
      ≡ (before ++ (store_blocks relative 0 words rest).0, (store_blocks relative 0 words rest).1)
unfolding store_blocks
store_blocks-before relative words [] rest h = refl
store_blocks-before relative words (b ∷ before) rest ((ends, word), h) =
    let bound : (b.base_address + b.reg_block_size) % 2 ^ 32 ≡ b.base_address + b.reg_block_size =
      mod-eq_of_lt (omega arith) in
    let outside : covers b (relative + 0) ≡ false = rw bound (ground arith) in
    rw (store_blocks, outside, store_blocks-before relative words before rest h) refl

store_channel-run :
    (position : ℕ) (words : List ℕ) (earlier later : List (List BinBlock))
    (blocks stored : List BinBlock)
    → store_blocks position 0 words blocks ≡ (stored, some (length words))
    → store_channel (length earlier) position words (earlier ++ (blocks ∷ later))
      ≡ (earlier ++ (stored ∷ later), true)
unfolding store_channel
store_channel-run position words [] later blocks stored h =
    let whole : (length words == length words) ≡ true = ground arith in rw (h, whole) refl
store_channel-run position words (e ∷ earlier) later blocks stored h =
    rw (store_channel-run position words earlier later blocks stored h) refl

-- For a run of blocks of one channel that follow on each other from the address of a reading
-- operation on, each with words for all of its registers, behind blocks that end at or before that
-- address: storing the words of the operation succeeds, every block of the run has its own words,
-- and no other block of any channel is changed.
pub store_readout_data-run :
    (channel_base position : ℕ) (earlier later : List (List BinBlock))
    (before after : List BinBlock) (b : BinBlock) (words : List ℕ) (run : List Filled)
    → position < channel_base
    → All (IsBefore position) before
    → IsRun position ((b, words) ∷ run)
    → store_readout_data channel_base
        (length earlier * channel_base + position)
        (words_of ((b, words) ∷ run))
        (earlier ++ ((before ++ (blocks_of ((b, words) ∷ run) ++ after)) ∷ later))
      ≡ (earlier ++ ((before ++ (filled ((b, words) ∷ run) ++ after)) ∷ later), true)
unfolding store_readout_data
store_readout_data-run channel_base position earlier later before after b words run inside passed
      h =
    let some_register : 0 < channel_base = omega arith in
    let none_over : position / channel_base ≡ 0 = div-eq_of_lt inside in
    let channel : length earlier + 0 ≡ length earlier = omega arith in
    let start : position + 0 ≡ position = omega arith in
    rw
      (
        mul-add-div_right some_register (length earlier) position,
        mul-add-mod_self_right (length earlier) channel_base position,
        mod-eq_of_lt inside,
        none_over,
        channel,
      )
      (store_channel-run position (words_of ((b, words) ∷ run)) earlier later
        (before ++ (blocks_of ((b, words) ∷ run) ++ after))
        (before ++ (filled ((b, words) ∷ run) ++ after))
        (store_blocks-before position (words_of ((b, words) ∷ run)) before
            (blocks_of ((b, words) ∷ run) ++ after) passed
          ∙ rw (store_blocks-run position [] b words run after (rw (sym start) at h)) refl))
