-- ===== src/Services/CounterRates/Run.antt =====
-- `CounterRates::handleReadInterval` with its exchange, and `CounterRates::processExecution` behind the
-- waiting.
pub mod Round
pub mod Allowed
pub mod Gated
use fit_fred.Common.{
  ℕ, Fallible, ok, err, ◌>>=◌, or_throw, Bytes, codes, [], ◌∷◌, ◌++◌, Option, none, some, List,
  if◌then◌else◌, Bool, true, false, bytes_eq, is_empty,
}
use fit_fred.Common.Int.{ℤ}
use fit_fred.Platform.{Platform}
use fit_fred.Board.Defs as Board
use fit_fred.Board.Defs.{Board, BoardType, tcm, pm, ParameterInfo, at, find}
use fit_fred.Handler.Defs.{Error, Handler}
use fit_fred.Handler.Fifo.{FifoResponse, fifo_content}
use fit_fred.WinCc.Request.Build.{read_request}
use fit_fred.Services.Exchange.{Alf, process_sequence_through_handler, read_fifo}
use fit_fred.Services.Requests.{RequestExecutionResult, Handlers, execute_queued_requests}
use fit_fred.Services.Requests.Wake.{Looping, ServiceHandlers, looping}
use fit_fred.Services.CounterRates.{
  Counters, Fault, ReadIntervalState, disabled, unknown, invalid, changed, unchanged, FifoState,
  board_error, empty, single, multiple, outdated, partial, FifoReadResult, not_performed,
  ReadoutResult, handle_read_interval, handle_fifo_readout, fifo_state_of, words_to_read,
}
use fit_fred.Services.CounterRates.Direct.{
  ResetError, uncaught, direct_readout_failed, reset_flag_failed, faulty, get_fifo_load,
  reset_board_counters,
}

-- What leaves `processExecution`.
pub data Escape : Type 0 where
  board_thrown : Board.Error → Escape
  handler_thrown : Error → Escape
  faulted : Fault → Escape

-- The counters of a board, in the order of `getAllCounters`.
tcm_counters : List Bytes
tcm_counters =
    codes "TRIGGER_5_COUNTER"
    ∷ codes "TRIGGER_4_COUNTER"
    ∷ codes "TRIGGER_2_COUNTER"
    ∷ codes "TRIGGER_1_COUNTER"
    ∷ codes "TRIGGER_3_COUNTER"
    ∷ codes "BACKGROUND_0_COUNTER"
    ∷ codes "BACKGROUND_1_COUNTER"
    ∷ codes "BACKGROUND_2_COUNTER"
    ∷ codes "BACKGROUND_3_COUNTER"
    ∷ codes "BACKGROUND_4_COUNTER"
    ∷ codes "BACKGROUND_5_COUNTER"
    ∷ codes "BACKGROUND_6_COUNTER"
    ∷ codes "BACKGROUND_7_COUNTER"
    ∷ codes "BACKGROUND_8_COUNTER"
    ∷ codes "BACKGROUND_9_COUNTER"
    ∷ []

-- The two counters of each channel.
channel_counters : List Bytes → List Bytes
channel_counters [] = []
channel_counters (number ∷ numbers) =
    (codes "CH" ++ (number ++ codes "_CTR_CFD"))
    ∷ (codes "CH" ++ (number ++ codes "_CTR_TRG"))
    ∷ channel_counters numbers

pm_counters : List Bytes
unfolding channel_counters
pm_counters = channel_counters (
    codes "01"
    ∷ codes "02"
    ∷ codes "03"
    ∷ codes "04"
    ∷ codes "05"
    ∷ codes "06"
    ∷ codes "07"
    ∷ codes "08"
    ∷ codes "09"
    ∷ codes "10"
    ∷ codes "11"
    ∷ codes "12"
    ∷ [])

unfoldable pub counter_names : BoardType → List Bytes
unfolding tcm_counters pm_counters
counter_names tcm = tcm_counters
counter_names pm = pm_counters

unfoldable pub reset_flag_name : BoardType → Bytes
reset_flag_name tcm = codes "BOARD_STATUS_RESET_COUNTERS"
reset_flag_name pm = codes "RESET_COUNTERS_AND_HISTOGRAMS"

abbrev pub fifo_name : Bytes
fifo_name = codes "COUNTERS_VALUES_READOUT"

abbrev pub fifo_load_name : Bytes
fifo_load_name = codes "COUNTERS_FIFO_LOAD"

abbrev pub interval_name : Bytes
interval_name = codes "COUNTER_READ_INTERVAL"

-- The service with the world.
pub record Service (W Double : Type 0) : Type 0 where
  pub world : W
  pub handler : Handler Double
  pub counters : Counters

pub data Publication : Type 0 where
  interval_unknown interval_invalid : Publication
  load_unread board_failed fifo_unread : Publication
  requests_failed : RequestExecutionResult → Publication
  answer : Option ReadoutResult → Option RequestExecutionResult → Publication

-- The states in which the FIFO is read.
unfoldable pub is_read : FifoState → Bool
is_read board_error = false
is_read empty = false
is_read _ = true

-- Whether the queue is executed behind a readout.
unfoldable pub may_execute : ReadIntervalState → Option ReadoutResult → Bool
may_execute interval none = true
may_execute disabled (some r) = true
may_execute interval (some r) = elim r.result [ not_performed ↦ false | _ ↦ true ]
