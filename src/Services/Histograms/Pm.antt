-- ===== src/Services/Histograms/Pm.antt =====
-- mapi/src/services/histograms/PmHistograms.cpp.
pub mod Sized
pub mod Filter
use fit_fred.Common.{
  ℕ, ◌+◌, ◌%◌, ◌^◌, ◌/◌, Fallible, ok, err, ◌>>=◌, Bytes, codes, [], ◌∷◌, ◌++◌, Option, none, some,
  List, ltb, ◌==◌, ◌&&◌, if◌then◌else◌, Bool, true, false, is_empty, bytes_eq,
}
use fit_fred.Common.Int.{ℤ, pos, negsuc}
use fit_fred.Platform.{Platform}
use fit_fred.Alf.Hex.{ParseError}
use fit_fred.Board.Defs as Board
use fit_fred.Board.Defs.{BoardType, tcm, pm, at}
use fit_fred.Handler.Defs.{Handler}
use fit_fred.WinCc.Request.Build.{write_request, write_electronic_request}
use fit_fred.FitData.Histograms.{Histogram}
use fit_fred.Services.BlockRead.{BlockResponse, block_content, block_read}
use fit_fred.Services.Exchange.{Alf, process_sequence_through_handler}
use fit_fred.Services.Histograms.Blocks.{BinBlock, fetch_channel_blocks}
use fit_fred.Services.Histograms.Operations.{OperationInfo, update_operations, select_histograms}
use fit_fred.Services.Histograms.Readout.{store_readout_data}

pub record PmHistograms (Double : Type 0) : Type 0 where
  pub channel_base : ℕ
  pub channels : List (List BinBlock)
  pub operations : List OperationInfo
  pub fifo_address : ℕ
  pub handler : Handler Double

pub data PmError : Type 0 where
  board_is_tcm : PmError
  missing_half : PmError
  board_failed : Board.Error → PmError
  parser_failed : ParseError → PmError
  position_failed : PmError
  fifo_failed : BlockResponse → PmError
  invalid_length : PmError
  reset_failed : PmError
  histogramming_failed : PmError
  filter_switch_failed : PmError
  filter_value_failed : PmError

-- The constructor. A TCM is refused; a half that is missing is dereferenced in the source.
unfoldable pub pm_histograms :
    {Double : Type 0} → Handler Double → List Histogram → Fallible PmError (PmHistograms Double)
unfolding fetch_channel_blocks update_operations
pm_histograms h histograms = elim h.board.type [
  | tcm ↦ err board_is_tcm
  | pm ↦ elim (fetch_channel_blocks histograms) [
    | none ↦ err missing_half
    | some channels ↦ elim (at h.board (codes "HISTOGRAM_READOUT")) [
      | err e ↦ err (board_failed e)
      | ok info ↦ ok (record {
        channel_base = info.reg_block_size;
        channels = channels;
        operations = update_operations info.reg_block_size channels;
        fifo_address = info.base_address;
        handler = h;
      })
    ]
  ]
]

-- `selectHistograms`.
unfoldable pub select : {Double : Type 0} → List Bytes → PmHistograms Double → PmHistograms Double
unfolding select_histograms
select names s =
    let (channels, operations) = select_histograms s.channel_base names s.channels in
    record s { channels = channels; operations = operations }

module _ (platform : Platform) {W : Type 0} (alf : Alf W) where
  open platform use {Double}

  -- A request to the board of the service; the result says whether there was no error report.
  request_board : W → PmHistograms Double → Bytes → Bool → W × PmHistograms Double × Bool
  request_board w s request read_after_write =
      let (after, next, out) =
        process_sequence_through_handler platform alf w s.handler request read_after_write in
      (after, record s { handler = next }, is_empty out.report)

  unfoldable pub reset_histograms :
      W → PmHistograms Double → W × PmHistograms Double × Fallible PmError (Unit {0})
  unfolding request_board
  reset_histograms w s =
      let (after, next, success) = request_board w s (write_request (codes "HIST_RESET") 1) false in
      (after, next, if success then ok tt else err reset_failed)

  unfoldable pub switch_histogramming :
      W → PmHistograms Double → Bool → W × PmHistograms Double × Fallible PmError (Unit {0})
  unfolding request_board
  switch_histogramming w s on =
      let (after, next, success) =
        request_board w s (write_request (codes "HIST_ON") (if on then 1 else 0)) true in
      (after, next, if success then ok tt else err histogramming_failed)

  -- The words of one operation.
  store_answer :
      PmHistograms Double
      → ℕ
      → Fallible ParseError BlockResponse
      → PmHistograms Double × Fallible PmError (Unit {0})
  unfolding store_readout_data
  store_answer s base (err e) = (s, err (parser_failed e))
  store_answer s base (ok (block_content words)) =
      let (channels, success) = store_readout_data s.channel_base base words s.channels in
      (record s { channels = channels }, if success then ok tt else err invalid_length)
  store_answer s base (ok response) = (s, err (fifo_failed response))

  -- The FIFO is read and the words are stored, if the address was set.
  read_words :
      W
      → PmHistograms Double
      → OperationInfo
      → Bool
      → W × PmHistograms Double × Fallible PmError (Unit {0})
  unfolding store_answer
  read_words w s operation false = (w, s, err position_failed)
  read_words w s operation true =
      let (after, answer) = block_read alf w s.fifo_address false operation.regblock_size in
      let (stored, result) = store_answer s operation.base_address answer in (after, stored, result)

  -- One round of the loop.
  unfoldable pub read_operation :
      W
      → PmHistograms Double
      → OperationInfo
      → W × PmHistograms Double × Fallible PmError (Unit {0})
  unfolding request_board read_words
  read_operation w s operation =
      let (after, next, success) =
        request_board w s
          (write_request (codes "CURRENT_ADDRESS_IN_HISTOGRAM_DATA") operation.base_address) true in
      read_words after next operation success

  unfoldable pub read_operations :
      W
      → PmHistograms Double
      → List OperationInfo
      → W × PmHistograms Double × Fallible PmError (Unit {0})
  unfolding read_operation
  read_operations w s [] = (w, s, ok tt)
  read_operations w s (operation ∷ operations) =
      let (after, next, result) = read_operation w s operation in
      let rest = read_operations after next operations in
      elim result [ err e ↦ (after, next, err e) | ok _ ↦ rest ]

  -- `readAndStoreHistograms`.
  unfoldable pub read_and_store :
      W → PmHistograms Double → W × PmHistograms Double × Fallible PmError (Unit {0})
  unfolding read_operations
  read_and_store w s = read_operations w s s.operations
