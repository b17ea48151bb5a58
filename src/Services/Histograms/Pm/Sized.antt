-- ===== src/Services/Histograms/Pm/Sized.antt =====
-- What reading the histograms of a PM never changes.
use fit_fred.Common.{
  ℕ, zero, suc, ◌+◌, ◌-◌, ◌/◌, ◌%◌, ◌≤◌, ◌≡◌, refl, ap, ◌∙◌, arith, Fallible, ok, err,
  Fallible-cases, [], ◌∷◌, List, ltb, leb, ◌&&◌, Bool, true, false, length, length-append, drop,
  take, codes, All, Bool-cases, inl, inr,
}
use fit_fred.Platform.{Platform}
use fit_fred.WinCc.Request.Build.{write_request}
use fit_fred.Alf.Hex.{ParseError}
use fit_fred.Services.BlockRead.{
  BlockResponse, block_content, communication_failed, too_many_frames, incomplete, block_read,
}
use fit_fred.Services.Exchange.{Alf}
use fit_fred.Services.Histograms.Blocks.{BinBlock}
use fit_fred.Services.Histograms.Operations.{OperationInfo}
use fit_fred.Services.Histograms.Readout.{
  covers, copied, store_blocks, store_channel, store_readout_data,
}
use fit_fred.Services.Histograms.Pm.{
  PmHistograms, store_answer, request_board, read_words, read_operation, read_operations,
  read_and_store,
}

-- A block has a word for each register.
abbrev pub IsSized : BinBlock → Type 0
IsSized b = length b.words ≡ b.reg_block_size

-- The channels without the words.
abbrev pub without_words : List BinBlock → List BinBlock
without_words [] = []
without_words (b ∷ bs) = record b { words = [] } ∷ without_words bs

abbrev pub layout : List (List BinBlock) → List (List BinBlock)
layout [] = []
layout (blocks ∷ channels) = without_words blocks ∷ layout channels

length-take : (n : ℕ) (xs : List ℕ) → n ≤ length xs → length (take n xs) ≡ n
length-take zero xs h = refl
length-take (suc n) [] h = absurd (omega arith)
length-take (suc n) (x ∷ xs) h = ap suc (length-take n xs (omega arith))

length-drop : (n : ℕ) (xs : List ℕ) → length (drop n xs) ≡ length xs - n
length-drop zero xs = omega arith
length-drop (suc n) [] = omega arith
length-drop (suc n) (x ∷ xs) = length-drop n xs ∙ omega arith

copied-IsSized :
    (b : BinBlock) (relative current : ℕ) (words : List ℕ)
    → IsSized b
    → covers b (relative + current) ≡ true
    → current + (length b.words - (relative + current - b.base_address)) ≤ length words
    → let offset = relative + current - b.base_address in
      IsSized (copied offset (take (length b.words - offset) (drop current words)) b)
copied-IsSized b relative current words sized inside enough =
    let offset = relative + current - b.base_address in
    let room : offset ≤ length b.words = ground arith in
    let copy = take (length b.words - offset) (drop current words) in
    let left = length-drop current words in
    let copy_size = length-take (length b.words - offset) (drop current words) (omega arith) in
    let kept = length-take offset b.words room in
    let total = length-append (take offset b.words) copy in omega arith

store_blocks-IsSized :
    (relative current : ℕ) (words : List ℕ) (blocks : List BinBlock)
    → All IsSized blocks
    → (without_words (store_blocks relative current words blocks).0 ≡ without_words blocks)
      × All IsSized (store_blocks relative current words blocks).0
unfolding store_blocks
store_blocks-IsSized relative current words [] sized = (refl, tt)
store_blocks-IsSized relative current words (b ∷ bs) (sized, rest) =
    let size = length b.words - (relative + current - b.base_address) in
    elim (Bool-cases (covers b (relative + current))) [
      | inr e ↦
          let (same, all) = store_blocks-IsSized relative current words bs rest in
          rw e (ap (λ r. record b { words = [] } ∷ r) same, (sized, all))
      | inl e ↦
          elim (Bool-cases (ltb current (length words) && leb (current + size) (length words))) [
            | inr q ↦ rw (e, q) (refl, (sized, rest))
            | inl q ↦
                let fits : current + size ≤ length words = ground arith in
                let fresh = copied-IsSized b relative current words sized e fits in
                let (same, all) = store_blocks-IsSized relative (current + size) words bs rest in
                elim (Bool-cases (leb (length words) (current + size))) [
                  | inl last ↦ rw (e, q, last) (refl, (fresh, rest))
                  | inr more ↦
                      rw (e, q, more) (ap (λ r. record b { words = [] } ∷ r) same, (fresh, all))
                ]
          ]
    ]

store_channel-IsSized :
    (channel relative : ℕ) (words : List ℕ) (channels : List (List BinBlock))
    → All (All IsSized) channels
    → (layout (store_channel channel relative words channels).0 ≡ layout channels)
      × All (All IsSized) (store_channel channel relative words channels).0
unfolding store_channel
store_channel-IsSized channel relative words [] sized = (refl, tt)
store_channel-IsSized zero relative words (blocks ∷ channels) (sized, rest) =
    let (same, all) = store_blocks-IsSized relative 0 words blocks sized in
    (ap (λ r. r ∷ layout channels) same, (all, rest))
store_channel-IsSized (suc channel) relative words (blocks ∷ channels) (sized, rest) =
    let (same, all) = store_channel-IsSized channel relative words channels rest in
    (ap (λ r. without_words blocks ∷ r) same, (sized, all))

-- What holds of the state after an operation.
abbrev Keeps : {Double : Type 0} → PmHistograms Double → PmHistograms Double → Type 0
Keeps s next =
    (layout next.channels ≡ layout s.channels)
    × All (All IsSized) next.channels
    × (next.operations ≡ s.operations)

store_answer-Keeps :
    (platform : Platform) {W : Type 0} (alf : Alf W) (s : PmHistograms platform.Double) (base : ℕ)
    (answer : Fallible ParseError BlockResponse)
    → All (All IsSized) s.channels
    → Keeps s (store_answer platform alf s base answer).0
unfolding store_answer store_readout_data
store_answer-Keeps platform alf s base (err e) sized = (refl, sized, refl)
store_answer-Keeps platform alf s base (ok (block_content words)) sized =
    let (same, all) =
      store_channel-IsSized (base / s.channel_base) (base % s.channel_base) words s.channels
        sized in
    (same, all, refl)
store_answer-Keeps platform alf s base (ok communication_failed) sized = (refl, sized, refl)
store_answer-Keeps platform alf s base (ok too_many_frames) sized = (refl, sized, refl)
store_answer-Keeps platform alf s base (ok (incomplete n)) sized = (refl, sized, refl)

Keeps-trans : {Double : Type 0} (a b c : PmHistograms Double) → Keeps a b → Keeps b c → Keeps a c
Keeps-trans a b c (same, sized, operations) (same', sized', operations') =
    (same' ∙ same, sized', operations' ∙ operations)

read_words-Keeps :
    (platform : Platform) {W : Type 0} (alf : Alf W) (w : W) (s : PmHistograms platform.Double)
    (o : OperationInfo) (success : Bool)
    → All (All IsSized) s.channels
    → Keeps s (read_words platform alf w s o success).1
unfolding read_words
read_words-Keeps platform alf w s o false sized = (refl, sized, refl)
read_words-Keeps platform alf w s o true sized =
    store_answer-Keeps platform alf s o.base_address
      (block_read alf w s.fifo_address false o.regblock_size).1 sized

read_operation-Keeps :
    (platform : Platform) {W : Type 0} (alf : Alf W) (w : W) (s : PmHistograms platform.Double)
    (o : OperationInfo)
    → All (All IsSized) s.channels
    → Keeps s (read_operation platform alf w s o).1
unfolding read_operation request_board
read_operation-Keeps platform alf w s o sized =
    let (after, next, success) =
      request_board platform alf w s
        (write_request (codes "CURRENT_ADDRESS_IN_HISTOGRAM_DATA") o.base_address) true in
    read_words-Keeps platform alf after next o success sized

read_operations-Keeps :
    (platform : Platform) {W : Type 0} (alf : Alf W) (os : List OperationInfo) (w : W)
    (s : PmHistograms platform.Double)
    → All (All IsSized) s.channels
    → Keeps s (read_operations platform alf w s os).1
unfolding read_operations
read_operations-Keeps platform alf [] w s sized = (refl, sized, refl)
read_operations-Keeps platform alf (o ∷ os) w s sized =
    let next = read_operation platform alf w s o in
    let one = read_operation-Keeps platform alf w s o sized in
    elim (Fallible-cases next.2) [
      | inl (u, e) ↦
          rw (read_operations, e)
            (Keeps-trans s next.1 (read_operations platform alf next.0 next.1 os).1 one
              (read_operations-Keeps platform alf os next.0 next.1 one.1))
      | inr (r, e) ↦ rw (read_operations, e) one
    ]

-- For blocks that have a word for each register, and any electronics: reading out the histograms of a
-- PM, whether it succeeds or stops at an error, leaves every block with a word for each register, and
-- changes neither the blocks but for their words nor the operations.
pub read_and_store-IsSized :
    (platform : Platform) {W : Type 0} (alf : Alf W) (w : W) (s : PmHistograms platform.Double)
    → All (All IsSized) s.channels
    → let next = (read_and_store platform alf w s).1 in
      All (All IsSized) next.channels
      × (layout next.channels ≡ layout s.channels)
      × (next.operations ≡ s.operations)
unfolding read_and_store
read_and_store-IsSized platform alf w s sized =
    let (same, all, operations) = read_operations-Keeps platform alf s.operations w s sized in
    (all, same, operations)
