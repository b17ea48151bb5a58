-- ===== src/Services/CounterRates/Run/Round.antt =====
-- One round of CounterRates: the interval, the readout, and the requests that may follow it.
use fit_fred.Common.{
  ℕ, Fallible, ok, err, ◌>>=◌, or_throw, Bytes, codes, [], ◌∷◌, ◌++◌, Option, none, some, List,
  if◌then◌else◌, true, false, bytes_eq,
}
use fit_fred.Common.Int.{ℤ}
use fit_fred.Platform.{Platform}
use fit_fred.Board.Defs as Board
use fit_fred.Board.Defs.{BoardType, tcm, pm, ParameterInfo, at, find}
use fit_fred.Handler.Fifo.{fifo_content}
use fit_fred.WinCc.Request.Build.{read_request}
use fit_fred.Services.Exchange.{Alf, process_sequence_through_handler, read_fifo}
use fit_fred.Services.Requests.{RequestExecutionResult, Handlers, execute_queued_requests}
use fit_fred.Services.Requests.Wake.{Looping, looping}
use fit_fred.Services.CounterRates.{
  Counters, Fault, ReadIntervalState, disabled, unknown, invalid, changed, unchanged, FifoState,
  ReadoutResult, handle_read_interval, handle_fifo_readout, fifo_state_of, words_to_read,
}
use fit_fred.Services.CounterRates.Direct.{
  ResetError, uncaught, direct_readout_failed, reset_flag_failed, faulty, get_fifo_load,
  reset_board_counters,
}
use fit_fred.Services.CounterRates.Run.{
  Escape, board_thrown, handler_thrown, faulted, counter_names, reset_flag_name, fifo_name,
  fifo_load_name, interval_name, Service, Publication, interval_unknown, interval_invalid,
  load_unread, board_failed, fifo_unread, requests_failed, answer, is_read, may_execute,
}

-- The counters after a readout; without a result, the publication of its failure.
judged :
    {W Double : Type 0}
    → Service W Double
    → Publication
    → Fallible Fault (Counters × Option ReadoutResult)
    → Service W Double × Fallible Escape (Option ReadoutResult × List Publication)
judged s failure (err f) = (s, err (faulted f))
judged s failure (ok (counters, none)) = (record s { counters = counters }, ok (none, failure ∷ []))
judged s failure (ok (counters, some r)) = (record s { counters = counters }, ok (some r, []))

module _ (platform : Platform) {W : Type 0} (alf : Alf W) where
  open platform use {Double}

  -- The code of the interval on the TCM: what is stored, or what a read stores. An error of the read is
  -- not looked at.
  tcm_code : Service W Double → Service W Double × Fallible Board.Error (Option ℤ)
  tcm_code s = elim (at s.handler.board interval_name) [
    | err e ↦ (s, err e)
    | ok info ↦ elim info.electronic_value [
      | some code ↦ (s, ok (some code))
      | none ↦
          let (after, next, out) =
            process_sequence_through_handler platform alf s.world s.handler
              (read_request interval_name) true in
          (
            record s { world = after; handler = next },
            (do info ← at next.board interval_name; ok info.electronic_value),
          )
    ]
  ]

  -- `getParentBoard()->at(...)`. A board without a parent is a null pointer in the source.
  parent_code : Option (List (ParameterInfo Double)) → Fallible Board.Error (Option ℤ)
  parent_code none = err (Board.parameter_not_found interval_name)
  parent_code (some parameters) = do
    info ← or_throw (find interval_name parameters) (Board.parameter_not_found interval_name)
    ok info.electronic_value

  -- The code on a PM is the one of the TCM, whose parameters are `later` after the waiting.
  pm_code :
      Option (List (ParameterInfo Double)) → Service W Double → Fallible Board.Error (Option ℤ)
  unfolding parent_code
  pm_code later s = do
    code ← parent_code s.handler.board.parent
    elim code [ some c ↦ ok (some c) | none ↦ parent_code later ]

  unfoldable pub interval_code :
      Option (List (ParameterInfo Double))
      → Service W Double
      → Service W Double × Fallible Board.Error (Option ℤ)
  unfolding tcm_code pm_code
  interval_code later s = elim s.handler.board.type [ tcm ↦ tcm_code s | pm ↦ (s, pm_code later s) ]

  -- The readout of a load that was read, with the answer of the FIFO if the state asks for it.
  read_state :
      Service W Double
      → ReadIntervalState
      → ℕ
      → FifoState
      → Service W Double × Fallible Escape (Option ReadoutResult × List Publication)
  unfolding judged
  read_state s interval load state = elim (is_read state) [
    | false ↦
        judged s board_failed
          (handle_fifo_readout s.counters (λ _. fifo_content []) interval (some load))
    | true ↦
        let (after, next, response) =
          read_fifo platform alf s.world s.handler fifo_name
            (words_to_read s.counters state load) in
        let read = record s { world = after; handler = next } in
        elim response [
          | err e ↦ (read, err (handler_thrown e))
          | ok fifo ↦
              judged read fifo_unread
                (handle_fifo_readout s.counters (λ _. fifo) interval (some load))
        ]
  ]

  unfoldable pub fifo_readout :
      Service W Double
      → ReadIntervalState
      → Service W Double × Fallible Escape (Option ReadoutResult × List Publication)
  unfolding read_state
  fifo_readout s interval =
      let (after, next, load) = get_fifo_load platform alf s.world s.handler fifo_load_name in
      let read = record s { world = after; handler = next } in
      elim load [
        | err e ↦ (read, err (board_thrown e))
        | ok none ↦ (read, ok (none, load_unread ∷ []))
        | ok (some words) ↦
            read_state read interval words (fifo_state_of read.counters interval words)
      ]

  -- What the handler of RESET returns, or an exception.
  reset_result :
      Service W Double
      → Fallible ResetError Counters
      → Service W Double × Fallible Escape (Fallible Bytes Bytes)
  reset_result s (ok counters) =
      (record s { counters = counters }, ok (ok (codes "Successfully reset counters")))
  reset_result s (err direct_readout_failed) = (s, ok (err (codes "Direct counter readout failed")))
  reset_result s (err reset_flag_failed) = (s, ok (err (codes "Failed to set reset flag")))
  reset_result s (err (uncaught e)) = (s, err (board_thrown e))
  reset_result s (err (faulty f)) = (s, err (faulted f))

  reset_request : Service W Double → Service W Double × Fallible Escape (Fallible Bytes Bytes)
  unfolding reset_result
  reset_request s =
      let (after, next, result) =
        reset_board_counters platform alf s.world s.counters s.handler
          (counter_names s.handler.board.type) (reset_flag_name s.handler.board.type) in
      reset_result (record s { world = after; handler = next }) result

  -- The handlers of the service, with START and STOP.
  unfoldable pub request_handlers : Handlers Escape (Looping (Service W Double))
  unfolding reset_request
  request_handlers = looping λ prefix.
      if bytes_eq prefix (codes "RESET")
      then some (λ arguments stopped s. reset_request s)
      else none

  -- The end of a round: the service, the requests that are left in the queue, what is published, and
  -- an exception.
  abbrev pub Round : Type 0
  Round = Looping (Service W Double) × List Bytes × List Publication × Option Escape

  -- The publication of the executed requests and the answer, unless a request threw.
  unfoldable pub publish :
      Looping (Service W Double)
      → List Publication
      → Option ReadoutResult
      → Fallible Escape RequestExecutionResult
      → Round
  publish s published readout (err e) = (s, [], published, some e)
  publish s published readout (ok result) = elim result.error [
    | some _ ↦ (s, [], published ++ (requests_failed result ∷ answer readout none ∷ []), none)
    | none ↦ (s, [], published ++ (answer readout (some result) ∷ []), none)
  ]

  -- Behind the readout, with the requests that are available.
  unfoldable pub finish :
      Service W Double
      → ReadIntervalState
      → Option ReadoutResult
      → List Publication
      → List Bytes
      → Round
  unfolding publish
  finish s interval readout published available =
      let start : Looping (Service W Double) = record { stopped = false; inner = s } in
      let executed = execute_queued_requests request_handlers start available in
      elim (may_execute interval readout) [
        | false ↦ (start, available, published ++ (answer readout none ∷ []), none)
        | true ↦ publish executed.0 published readout executed.1
      ]

  unfoldable pub read_out :
      Service W Double
      → ReadIntervalState
      → Service W Double × Fallible Escape (Option ReadoutResult × List Publication)
  unfolding fifo_readout
  read_out s unknown = (s, ok (none, interval_unknown ∷ []))
  read_out s invalid = (s, ok (none, interval_invalid ∷ []))
  read_out s disabled = (s, ok (none, []))
  read_out s changed = fifo_readout s changed
  read_out s unchanged = fifo_readout s unchanged

  unfoldable pub behind_interval : Service W Double → ReadIntervalState → List Bytes → Round
  unfolding read_out finish
  behind_interval s interval available =
      let (read, result) = read_out s interval in
      elim result [
        | err e ↦ (record { stopped = false; inner = read }, available, [], some e)
        | ok (readout, published) ↦ finish read interval readout published available
      ]

  -- `processExecution` of a service that is running, behind the waiting. The service is not stopped
  -- then.
  unfoldable pub process_execution :
      Option (List (ParameterInfo Double)) → Service W Double → List Bytes → Round
  unfolding interval_code behind_interval
  process_execution later s available =
      let (asked, code) = interval_code later s in
      elim code [
        | err e ↦ (record { stopped = false; inner = asked }, available, [], some (board_thrown e))
        | ok current ↦
            let (counters, interval) = handle_read_interval asked.counters current in
            behind_interval (record asked { counters = counters }) interval available
      ]
