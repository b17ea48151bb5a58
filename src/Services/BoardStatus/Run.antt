-- ===== src/Services/BoardStatus/Run.antt =====
-- `BoardStatus::checkGbtErrors` and `BoardStatus::processExecution`, from the exchange on.
use fit_fred.Common.{
  ℕ, Fallible, ok, err, ◌>>=◌, Bytes, codes, [], ◌∷◌, ◌++◌, Option, none, some, List, map, Bool,
  true, false,
}
use fit_fred.Common.Int.{pos, to_u32}
use fit_fred.Platform.{Platform}
use fit_fred.Board.Defs.{Board, ParameterInfo, at}
use fit_fred.Board.Environment.{Setting}
use fit_fred.Handler.Defs.{Error, Handler}
use fit_fred.Handler.Receive.{Outcome, process_message_from_alf}
use fit_fred.Handler.Fifo.{FifoResponse, fifo_content, fifo_error}
use fit_fred.Services.Exchange.{Alf, read_fifo}
use fit_fred.Utils.Gbt.{
  GbtError, GbtRateMonitor, Rate, parse_fifo_data, error_parameter, update_rates,
}
use fit_fred.Services.BoardStatus.{
  Escape, handler_thrown, Entry, value, rate, gbt_found, gbt_unread, Publication, failed,
  gbt_failed, status, BoardStatus, variables_of, through_board, copy_row, physical_value,
  environment_of, clock_entry,
}

-- What the check finds.
pub data GbtCheck : Type 0 where
  no_errors : GbtCheck
  unread : Error → GbtCheck
  found : GbtError → GbtCheck

-- The response to the reading of the FIFO; an exception of `parseFifo` leaves the check.
unfoldable pub judge_fifo : List ℕ → Fallible Error FifoResponse → Fallible Escape GbtCheck
unfolding copy_row
judge_fifo before (err e) = err (handler_thrown e)
judge_fifo before (ok (fifo_error e)) = ok (unread e)
judge_fifo before (ok (fifo_content rows)) = do
  words ← copy_row before rows
  ok (found (parse_fifo_data words))

-- `m_gbtError`, and the report that `saveErrorReport` writes.
pending_with : GbtCheck → Option GbtError → Option GbtError
pending_with (found e) pending = some e
pending_with _ pending = pending

saved_with : Option GbtError → List GbtError → List GbtError
saved_with none saved = saved
saved_with (some e) saved = saved ++ (e ∷ [])

module _ {Double : Type 0} where
  -- Boards see the shared variables as they are now.
  unfoldable pub see_settings : List (Setting Double) → Board Double → Board Double
  unfolding variables_of
  see_settings settings board = elim board.environment [
    | none ↦ board
    | some _ ↦ record board { environment = some (variables_of settings) }
  ]

  entries_of : GbtCheck → List (Entry Double)
  entries_of no_errors = []
  entries_of (unread e) = gbt_unread e ∷ []
  entries_of (found e) = gbt_found (error_parameter e) ∷ []

  published_of : GbtCheck → List (Publication Double)
  published_of (unread e) = gbt_failed e ∷ []
  published_of _ = []

module _ (platform : Platform) {W : Type 0} (alf : Alf W) where
  open platform use {Double, from_int64, to_int64, same_double}

  -- The FIFO is read with the block size of its parameter as the number of words. `before` is what
  -- the array holds.
  unfoldable pub read_gbt_fifo :
      List ℕ
      → W
      → Handler Double
      → ParameterInfo Double
      → W × Handler Double × Fallible Escape GbtCheck
  unfolding judge_fifo
  read_gbt_fifo before w h fifo =
      let (after, next, response) = read_fifo platform alf w h fifo.name fifo.reg_block_size in
      (after, next, judge_fifo before response)

  unfoldable pub read_unless_empty :
      List ℕ
      → W
      → Handler Double
      → Bool
      → Fallible Escape (ParameterInfo Double)
      → W × Handler Double × Fallible Escape GbtCheck
  unfolding read_gbt_fifo
  read_unless_empty before w h true fifo = (w, h, ok no_errors)
  read_unless_empty before w h false (err e) = (w, h, err e)
  read_unless_empty before w h false (ok fifo) = read_gbt_fifo before w h fifo

  -- `checkGbtErrors`, with the handler of the FIFO on the board.
  unfoldable pub check_gbt_errors :
      List ℕ → W → Handler Double → W × Handler Double × Fallible Escape GbtCheck
  unfolding read_unless_empty
  check_gbt_errors before w h =
      elim (physical_value platform h.board (codes "GBT_FIFO_EMPTY_ERROR_REPORT")) [
        | err e ↦ (w, h, err e)
        | ok empty ↦
            read_unless_empty before w h (same_double empty (from_int64 (pos 1)))
              (through_board (at h.board (codes "GBT_ERROR_REPORT")))
      ]

  -- The rates of the GBT interface off the counts that the board has.
  unfoldable pub gbt_rates :
      Board Double → GbtRateMonitor → Fallible Escape (GbtRateMonitor × List (Bytes × Rate))
  gbt_rates board monitor = do
    words ← physical_value platform board (codes "GBT_WORDS_COUNT")
    events ← physical_value platform board (codes "GBT_EVENTS_COUNT")
    ok (update_rates monitor (to_u32 (to_int64 words)) (to_u32 (to_int64 events)))

  -- The answer, and the report of the error that was found.
  answer :
      BoardStatus Double
      → List (Bytes × Double)
      → GbtCheck
      → BoardStatus Double × List (Publication Double) × Option Escape
  unfolding gbt_rates entries_of saved_with
  answer s response check = elim (gbt_rates s.handler.board s.monitor) [
    | err e ↦ (s, [], some e)
    | ok (monitor, rates) ↦ elim (clock_entry platform s.handler.board s.settings) [
      | err e ↦ (record s { monitor = monitor }, [], some e)
      | ok clock ↦ (
        record s { monitor = monitor; gbt_error = none; saved = saved_with s.gbt_error s.saved },
        status (map value response ++ (map rate rates ++ (entries_of check ++ clock))) ∷ [],
        none,
      )
    ]
  ]

  behind_check :
      W
      → BoardStatus Double
      → List (Bytes × Double)
      → Fallible Escape GbtCheck
      → W × BoardStatus Double × List (Publication Double) × Option Escape
  unfolding answer published_of pending_with
  behind_check w s response (err e) = (w, s, [], some e)
  behind_check w s response (ok check) =
      let (next, published, exception) =
        answer (record s { gbt_error = pending_with check s.gbt_error }) response check in
      (w, next, published_of check ++ published, exception)

  -- From the values on, which the board has stored.
  behind_environment :
      List ℕ
      → W
      → BoardStatus Double
      → List (Bytes × Double)
      → Option Escape
      → W × BoardStatus Double × List (Publication Double) × Option Escape
  unfolding behind_check check_gbt_errors
  behind_environment before w s response (some e) = (w, s, [], some e)
  behind_environment before w s response none =
      let (after, fifo_handler, check) =
        check_gbt_errors before w (record s.fifo_handler { board = s.handler.board }) in
      behind_check after (record s { fifo_handler = fifo_handler }) response check

  behind_values :
      List ℕ
      → W
      → BoardStatus Double
      → List (Bytes × Double)
      → W × BoardStatus Double × List (Publication Double) × Option Escape
  unfolding behind_environment see_settings
  behind_values before w s response =
      let (settings, exception) = environment_of platform s.handler.board s.settings in
      behind_environment before w
        (record s {
          handler = record s.handler { board = see_settings settings s.handler.board };
          settings = settings;
        })
        response exception

  judge_values :
      List ℕ
      → W
      → BoardStatus Double
      → Outcome Double
      → List (Bytes × Error)
      → W × BoardStatus Double × List (Publication Double) × Option Escape
  unfolding behind_values
  judge_values before w s out [] = behind_values before w s out.response
  judge_values before w s out (e ∷ es) = (w, s, failed (e ∷ es) out.response ∷ [], none)

  -- `processExecution` from the exchange on; `interval` is the time since the last one, in
  -- milliseconds.
  unfoldable pub process_execution :
      List ℕ
      → ℕ
      → W
      → BoardStatus Double
      → W × BoardStatus Double × List (Publication Double) × Option Escape
  unfolding judge_values see_settings
  process_execution before interval w s =
      let (after, text) = alf w s.request in
      let handler = record s.handler { board = see_settings s.settings s.handler.board } in
      let out = process_message_from_alf platform handler text in
      let next = record s {
        handler = record s.handler { board = out.board };
        monitor = record s.monitor { time_interval = interval };
      } in
      judge_values before after next out out.report
