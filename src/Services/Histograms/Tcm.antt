-- ===== src/Services/Histograms/Tcm.antt =====
-- mapi/src/services/histograms/TcmHistograms.cpp.
pub mod Slices
use fit_fred.Common.{
  ℕ, ◌+◌, ◌-◌, ◌%◌, ◌^◌, Fallible, ok, err, ◌>>=◌, throw_if, ◌>>◌, or_throw, Bytes, codes, [], ◌∷◌,
  ◌++◌, Option, none, some, List, ltb, leb, ◌==◌, ◌&&◌, if◌then◌else◌, Bool, true, false, length,
  drop, take, is_empty,
}
use fit_fred.Common.Int.{ℤ, pos, negsuc}
use fit_fred.Utils.Decimal.{decimal}
use fit_fred.Platform.{Platform}
use fit_fred.Alf.Hex.{ParseError}
use fit_fred.Board.Defs as Board
use fit_fred.Board.Defs.{BoardType, tcm, pm, at}
use fit_fred.Handler.Defs.{Handler}
use fit_fred.WinCc.Request.Build.{write_request}
use fit_fred.Services.BlockRead.{BlockResponse, block_content, block_read}
use fit_fred.Services.Exchange.{Alf, process_sequence_through_handler}

pub record TcmHistogram : Type 0 where
  pub name : Bytes
  pub base_address : ℕ
  pub bin_count : ℕ
  pub words : List ℕ

pub data TcmError : Type 0 where
  not_a_tcm : TcmError
  board_failed : Board.Error → TcmError
  parser_failed : ParseError → TcmError
  missing_information : TcmError
  read_failed : BlockResponse → TcmError
  incomplete_readout : TcmError
  select_failed : Bytes → TcmError
  reset_failed : TcmError

abbrev counters_select : Bytes
counters_select = codes "MODE_CORRELATION_COUNTER_SELECT"

abbrev all_histograms : List Bytes
all_histograms =
    codes "HISTOGRAM_CORRELATION_COUNTERS_SELECTABLE"
    ∷ codes "HISTOGRAM_CORRELATION_COUNTERS_01"
    ∷ codes "HISTOGRAM_CORRELATION_COUNTERS_02"
    ∷ []

-- What follows the last underscore, or the whole name; `tail` is what follows the last one so far.
after_underscore : Bytes → Bytes → Bytes
after_underscore found [] = found
after_underscore found (c ∷ s) = if c == 95 then after_underscore s s else after_underscore found s

unfoldable pub counter_name : Bytes → Bytes
unfolding after_underscore
counter_name name = after_underscore name name

-- `std::sort` by the address, as for the blocks of a PM.
insert_histogram : TcmHistogram → List TcmHistogram → List TcmHistogram
insert_histogram h [] = h ∷ []
insert_histogram h (g ∷ gs) =
    if ltb g.base_address h.base_address then g ∷ insert_histogram h gs else h ∷ g ∷ gs

sort_histograms : List TcmHistogram → List TcmHistogram
unfolding insert_histogram
sort_histograms [] = []
sort_histograms (h ∷ hs) = insert_histogram h (sort_histograms hs)

module _ {Double : Type 0} where
  histograms_of : Board.Board Double → List Bytes → Fallible Board.Error (List TcmHistogram)
  unfolding counter_name
  histograms_of board [] = ok []
  histograms_of board (name ∷ names) = do
    info ← at board name
    rest ← histograms_of board names
    ok (
        record {
          name = counter_name name;
          base_address = info.base_address;
          bin_count = info.reg_block_size;
          words = [];
        }
        ∷ rest)

  unfoldable pub fetch_histogram_info : Board.Board Double → Fallible TcmError (List TcmHistogram)
  unfolding histograms_of sort_histograms
  fetch_histogram_info board = elim board.type [
    | pm ↦ err not_a_tcm
    | tcm ↦ elim (histograms_of board all_histograms) [
      | err e ↦ err (board_failed e)
      | ok histograms ↦ ok (sort_histograms histograms)
    ]
  ]

  -- `at(CorrelationCountersSelect).getElectronicValueOptional()`.
  selected_counter : Board.Board Double → Fallible Board.Error (Option ℤ)
  selected_counter board = do info ← at board counters_select; ok info.electronic_value

-- `parseHistogramData`: each histogram takes its words; one that lies before the start has none. It
-- stops at a histogram that ends behind the words. The distance from the start is a `uint32_t`.
unfoldable pub parse_histogram_data : List ℕ → ℕ → List TcmHistogram → List TcmHistogram × Bool
parse_histogram_data words start [] = ([], true)
parse_histogram_data words start (h ∷ hs) =
    let rest = parse_histogram_data words start hs in
    let from = h.base_address - start in
    if ltb h.base_address start
    then (record h { words = [] } ∷ rest.0, rest.1)
    else if ltb (length words) (from + h.bin_count)
    then (h ∷ hs, false)
    else (record h { words = take h.bin_count (drop from words) } ∷ rest.0, rest.1)

-- The end of the last histogram.
unfoldable pub last_end : TcmHistogram → List TcmHistogram → ℕ
last_end h [] = (h.base_address + h.bin_count) % 2 ^ 32
last_end h (g ∷ gs) = last_end g gs

-- The range of registers that is read, or nothing if there are fewer than two histograms.
unfoldable pub read_range : Bool → List TcmHistogram → Option (ℕ × ℕ)
unfolding last_end
read_range selectable [] = none
read_range selectable (h ∷ []) = none
read_range selectable (h ∷ g ∷ hs) =
    let start = if selectable then h.base_address else g.base_address in
    some (start, (last_end g hs + 2 ^ 32 - start) % 2 ^ 32)

abbrev is_zero : ℤ → Bool
is_zero (pos n) = n == 0
is_zero (negsuc n) = false

abbrev is_number : Option ℤ → ℕ → Bool
is_number none n = false
is_number (some (pos m)) n = m == n
is_number (some (negsuc m)) n = false

abbrev is_selectable : Option ℤ → Bool
is_selectable none = false
is_selectable (some v) = if is_zero v then false else true

module _ (platform : Platform) {W : Type 0} (alf : Alf W) where
  open platform use {Double}

  -- The state: the world, the handler and the histograms.
  abbrev pub State : Type 0
  State = W × Handler Double × List TcmHistogram

  unfoldable pub set_counter_id : State → ℕ → State × Fallible TcmError (Unit {0})
  unfolding selected_counter
  set_counter_id (w, h, histograms) counter = elim (selected_counter h.board) [
    | err e ↦ ((w, h, histograms), err (board_failed e))
    | ok current ↦ elim (is_number current counter) [
      | true ↦ ((w, h, histograms), ok tt)
      | false ↦
          let (after, next, out) =
            process_sequence_through_handler platform alf w h
              (write_request counters_select counter) true in
          (
            (after, next, histograms),
            if is_empty out.report
                then ok tt
                else err
                    (select_failed (if counter == 0 then codes "[disabled]" else decimal counter)),
          )
    ]
  ]

  unfoldable pub reset_histograms : State → State × Fallible TcmError (Unit {0})
  reset_histograms (w, h, histograms) =
      let (after, next, out) =
        process_sequence_through_handler platform alf w h
          (write_request (codes "MODE_RESET_PER_BC_TRIGGER_COUNTER") 1) false in
      ((after, next, histograms), if is_empty out.report then ok tt else err reset_failed)

  -- The words of the answer, if there is one.
  store_answer :
      List TcmHistogram
      → ℕ
      → Fallible ParseError BlockResponse
      → List TcmHistogram × Fallible TcmError (Unit {0})
  unfolding parse_histogram_data
  store_answer histograms start (err e) = (histograms, err (parser_failed e))
  store_answer histograms start (ok (block_content words)) =
      let (stored, success) = parse_histogram_data words start histograms in
      (stored, if success then ok tt else err incomplete_readout)
  store_answer histograms start (ok response) = (histograms, err (read_failed response))

  unfoldable pub read_and_store : State → State × Fallible TcmError (Unit {0})
  unfolding selected_counter read_range store_answer
  read_and_store (w, h, histograms) =
      if ltb (length histograms) 2
      then ((w, h, histograms), err missing_information)
      else elim (selected_counter h.board) [
        | err e ↦ ((w, h, histograms), err (board_failed e))
        | ok current ↦ elim (read_range (is_selectable current) histograms) [
          | none ↦ ((w, h, histograms), err missing_information)
          | some (start, words) ↦
              let (after, answer) = block_read alf w start true words in
              let (stored, result) = store_answer histograms start answer in
              ((after, h, stored), result)
        ]
      ]
