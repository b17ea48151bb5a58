-- ===== src/Services/CounterRates/Run/Gated.antt =====
-- When a round of CounterRates serves the requests of its queue.
use fit_fred.Common.{◌≡◌, ok, err, Bytes, [], ◌∷◌, ◌++◌, Option, none, some, List, false}
use fit_fred.Common.Int.{ℤ}
use fit_fred.Platform.{Platform}
use fit_fred.Board.Defs as Board
use fit_fred.Board.Defs.{ParameterInfo}
use fit_fred.Services.Exchange.{Alf}
use fit_fred.Services.Requests.{RequestError, RequestExecutionResult}
use fit_fred.Services.Requests.Queue.{Condenses, IsExecuted}
use fit_fred.Services.Requests.Wake.{Looping}
use fit_fred.Services.CounterRates.{
  ReadIntervalState, disabled, not_performed, ReadoutResult, handle_read_interval,
}
use fit_fred.Services.CounterRates.Run.{
  Escape, board_thrown, Service, Publication, answer, requests_failed,
}
use fit_fred.Services.CounterRates.Run.Round.{Round, request_handlers, read_out, interval_code}
use fit_fred.Services.CounterRates.Run.Allowed.{Allows}

module _ (platform : Platform) {W : Type 0} (alf : Alf W) where
  open platform use {Double}

  abbrev pub running : Service W Double → Looping (Service W Double)
  running s = record { stopped = false; inner = s }

  -- How a round ends behind a readout that left the service `read` and the publications `before`, for
  -- the requests that are available.
  pub data ServiceEnd (read : Service W Double) (interval : ReadIntervalState)
      (readout : Option ReadoutResult) (before : List Publication) (available : List Bytes)
      : Round platform alf → Type 0 where
    waiting :
        (r : ReadoutResult)
        → ¬ (interval ≡ disabled)
        → readout ≡ some r
        → r.result ≡ not_performed
        → ServiceEnd read interval readout before available
            (running read, available, before ++ (answer readout none ∷ []), none)
    interrupted :
        (end : Looping (Service W Double)) (requests : List Bytes) (e : Escape)
        → Allows interval readout
        → Condenses available requests
        → IsExecuted (request_handlers platform alf) (running read) end requests (err e)
        → ServiceEnd read interval readout before available (end, [], before, some e)
    failed :
        (end : Looping (Service W Double)) (requests : List Bytes) (result : RequestExecutionResult)
        (e : RequestError)
        → Allows interval readout
        → Condenses available requests
        → IsExecuted (request_handlers platform alf) (running read) end requests (ok result)
        → result.error ≡ some e
        → ServiceEnd read interval readout before available
            (end, [], before ++ (requests_failed result ∷ answer readout none ∷ []), none)
    served :
        (end : Looping (Service W Double)) (requests : List Bytes) (result : RequestExecutionResult)
        → Allows interval readout
        → Condenses available requests
        → IsExecuted (request_handlers platform alf) (running read) end requests (ok result)
        → result.error ≡ none
        → ServiceEnd read interval readout before available
            (end, [], before ++ (answer readout (some result) ∷ []), none)

  -- The service with the interval that it has for a code.
  abbrev pub with_interval : Service W Double → Option ℤ → Service W Double
  with_interval s code = record s { counters = (handle_read_interval s.counters code).0 }

  -- How a round ends: by an exception while the code of the interval is read, by one during the
  -- readout of the FIFO, or behind the readout.
  pub data RoundEnd (later : Option (List (ParameterInfo Double))) (s : Service W Double)
      (available : List Bytes) : Round platform alf → Type 0 where
    interval_thrown :
        (asked : Service W Double) (e : Board.Error)
        → interval_code platform alf later s ≡ (asked, err e)
        → RoundEnd later s available (running asked, available, [], some (board_thrown e))
    readout_thrown :
        (asked read : Service W Double) (code : Option ℤ) (e : Escape)
        → interval_code platform alf later s ≡ (asked, ok code)
        → read_out platform alf
            (with_interval asked code)
            (handle_read_interval asked.counters code).1
          ≡ (read, err e)
        → RoundEnd later s available (running read, available, [], some e)
    behind_readout :
        (asked read : Service W Double) (code : Option ℤ) (readout : Option ReadoutResult)
        (before : List Publication) (round : Round platform alf)
        → interval_code platform alf later s ≡ (asked, ok code)
        → read_out platform alf
            (with_interval asked code)
            (handle_read_interval asked.counters code).1
          ≡ (read, ok (readout, before))
        → ServiceEnd read
            (handle_read_interval asked.counters code).1
            readout
            before
            available
            round
        → RoundEnd later s available round
