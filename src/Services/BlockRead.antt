-- ===== src/Services/BlockRead.antt =====
-- `BasicFitIndefiniteMapi::blockRead`: a range of registers in packets, and the words of the answer.
pub mod Packets
pub mod Answer
use fit_fred.Common.{
  ℕ, zero, suc, ◌+◌, ◌/◌, ◌%◌, ◌^◌, ◌≡◌, refl, arith, Fallible, ok, err, Bytes, [], ◌∷◌, ◌++◌,
  Option, none, some, List, ltb, leb, if◌then◌else◌, Bool, true, false,
}
use fit_fred.Swt.Sequence.{Operation, SwtOperation, max_block_read_size, sequence}
use fit_fred.Alf.Hex.{ParseError}
use fit_fred.Alf.Parser.{Line, response_to_read, response_to_write, lines, is_success}

packet : Bool → ℕ → ℕ → SwtOperation
packet incrementing address size = record {
  type = if incrementing then Operation.block_read else Operation.block_read_non_increment;
  address = address;
  data0 = size;
  data1 = 0;
  expect_response = true;
}

-- The loop over the full packets, and the address behind them.
full_packets : Bool → ℕ → ℕ → List SwtOperation × ℕ
unfolding packet
full_packets incrementing address zero = ([], address)
full_packets incrementing address (suc n) =
    let next = if incrementing then (address + max_block_read_size) % 2 ^ 32 else address in
    let (rest, end) = full_packets incrementing next n in
    (packet incrementing address max_block_read_size ∷ rest, end)

-- The operations of the sequence.
unfoldable pub block_operations : ℕ → Bool → ℕ → List SwtOperation
unfolding full_packets packet
block_operations base incrementing words =
    let offset = words % max_block_read_size in
    let (full, end) =
      if ltb offset words
      then full_packets incrementing base (words / max_block_read_size)
      else ([], base) in
    full ++ (packet incrementing end offset ∷ [])

pub data BlockResponse : Type 0 where
  block_content : List ℕ → BlockResponse
  communication_failed too_many_frames : BlockResponse
  incomplete : ℕ → BlockResponse

-- The loop over the lines, with `idx` words in `content`.
pub collect_block :
    ℕ → ℕ → List ℕ → List Line → Option ParseError → Fallible ParseError BlockResponse
collect_block words idx content [] (some e) = err e
collect_block words idx content [] none =
    ok (if ltb idx words then incomplete idx else block_content content)
collect_block words idx content (line ∷ rest) end = elim line.type [
  | response_to_write ↦ collect_block words idx content rest end
  | response_to_read frame ↦ elim (leb words idx) [
    | true ↦ ok too_many_frames
    | false ↦ collect_block words (suc idx) (content ++ (frame.word ∷ [])) rest end
  ]
]

unfoldable pub parse_block : ℕ → Bytes → Fallible ParseError BlockResponse
unfolding collect_block
parse_block words text =
    if is_success text
    then collect_block words 0 [] (lines text).0 (lines text).1
    else ok communication_failed

-- `blockRead`, with `executeAlfSequence` a parameter that may change a world.
unfoldable pub block_read :
    {W : Type 0}
    → (W → Bytes → W × Bytes)
    → W
    → ℕ
    → Bool
    → ℕ
    → W × Fallible ParseError BlockResponse
unfolding parse_block block_operations
block_read alf w base incrementing words =
    let (after, answer) = alf w (sequence (block_operations base incrementing words)) in
    (after, parse_block words answer)
