-- ===== src/Services/BoardStatus.antt =====
-- mapi/src/services/BoardStatus.cpp: the periodic status of a board, with the errors and the rates of
-- its GBT interface.
pub mod Run
pub mod Bounded
use fit_fred.Common.{
  ℕ, Fallible, ok, err, ◌>>=◌, Bytes, codes, [], ◌∷◌, ◌++◌, Option, none, some, List, length, drop,
  ltb, if◌then◌else◌, Bool, true, false, map,
}
use fit_fred.Common.Int.{ℤ, pos, to_u32}
use fit_fred.Platform.{Platform}
use fit_fred.Board.Defs as Board
use fit_fred.Board.Defs.{Board, BoardType, tcm, pm, Variable, ParameterInfo, at, get_physical_value}
use fit_fred.Board.Environment.{
  Setting, MissingSetting, get_variable, set_variable, update_variable,
}
use fit_fred.Handler.Defs.{Error, Handler}
use fit_fred.Handler.Send.{process_message_from_wincc}
use fit_fred.Handler.Receive.{Outcome, process_message_from_alf}
use fit_fred.Handler.Fifo.{FifoResponse, fifo_content, fifo_error}
use fit_fred.Services.Exchange.{Alf, read_fifo}
use fit_fred.Utils.Gbt.{
  GbtError, GbtRateMonitor, Rate, fifo_size, parse_fifo_data, error_parameter, update_rates,
}

-- What leaves `processExecution`. A FIFO without rows and a row that is longer than the array are not
-- defined in C++.
pub data Escape : Type 0 where
  board_thrown : Board.Error → Escape
  variable_thrown : MissingSetting → Escape
  handler_thrown : Error → Escape
  no_row : Escape
  array_overflow : Escape

-- An entry of the published status.
pub data Entry (Double : Type 0) : Type 0 where
  value : Bytes × Double → Entry Double
  rate : Bytes × Rate → Entry Double
  gbt_found : Bytes → Entry Double
  gbt_unread : Error → Entry Double

pub data Publication (Double : Type 0) : Type 0 where
  failed : List (Bytes × Error) → List (Bytes × Double) → Publication Double
  gbt_failed : Error → Publication Double
  status : List (Entry Double) → Publication Double

-- The service. Both handlers share the board, which the first one has here; `settings` are the shared
-- environment variables, `gbt_error` is the error that was found, and `saved` the reports that went to
-- the file of errors.
pub record BoardStatus (Double : Type 0) : Type 0 where
  pub handler : Handler Double
  pub fifo_handler : Handler Double
  pub request : Bytes
  pub monitor : GbtRateMonitor
  pub settings : List (Setting Double)
  pub gbt_error : Option GbtError
  pub saved : List GbtError

-- The reading of the parameters that are refreshed. The last character is taken off.
abbrev pub without_last : Bytes → Bytes
without_last [] = []
without_last (c ∷ []) = []
without_last (c ∷ d ∷ s) = c ∷ without_last (d ∷ s)

unfoldable pub refresh_request : List Bytes → Bytes
refresh_request [] = []
refresh_request (name ∷ names) = name ++ (codes ",READ\n" ++ refresh_request names)

-- The values that the boards see.
unfoldable pub variables_of : {Double : Type 0} → List (Setting Double) → List (Variable Double)
variables_of [] = []
variables_of (s ∷ settings) = record { name = s.name; value = s.value } ∷ variables_of settings

abbrev pub through_board {ℓ} : {A : Type ℓ} → Fallible Board.Error A → Fallible Escape A
through_board (ok a) = ok a
through_board (err e) = err (board_thrown e)

abbrev pub through_variables {ℓ} : {A : Type ℓ} → Fallible MissingSetting A → Fallible Escape A
through_variables (ok a) = ok a
through_variables (err e) = err (variable_thrown e)

-- The variables after some changes, and the exception that ended them.
abbrev pub Changed : Type 0 → Type 0
Changed Double = List (Setting Double) × Option Escape

unfoldable pub unless_thrown :
    {Double : Type 0} → Changed Double → (List (Setting Double) → Changed Double) → Changed Double
unless_thrown (settings, none) rest = rest settings
unless_thrown (settings, some e) rest = (settings, some e)

-- `std::copy` into the array, whose old contents are not defined.
unfoldable pub copy_row : List ℕ → List (List ℕ) → Fallible Escape (List ℕ)
copy_row before [] = err no_row
copy_row before (row ∷ rows) =
    if ltb fifo_size (length row) then err array_overflow else ok (row ++ drop (length row) before)

module _ (platform : Platform) where
  open platform use {Double, from_int64, to_int64, same_double}

  -- The constructor.
  unfoldable pub board_status :
      Handler Double → List (Setting Double) → List Bytes → Fallible Error (BoardStatus Double)
  unfolding refresh_request
  board_status h settings to_refresh =
      let (handler, made) =
        process_message_from_wincc platform h (without_last (refresh_request to_refresh)) true in
      elim made [
        | err e ↦ err e
        | ok request ↦ ok (record {
          handler = handler;
          fifo_handler = h;
          request = request;
          monitor = record { time_interval = 0; words_count = 0; events_count = 0 };
          settings = settings;
          gbt_error = none;
          saved = [];
        })
      ]

  unfoldable pub physical_value : Board Double → Bytes → Fallible Escape Double
  physical_value board name = do
    info ← through_board (at board name)
    through_board (get_physical_value info)

  -- The clock that is in use.
  unfoldable pub system_clock : Board Double → List (Setting Double) → Fallible Escape Double
  unfolding physical_value
  system_clock board settings = do
    source ← physical_value board (codes "BOARD_STATUS_ACTUAL_CLOCK_SOURCE")
    through_variables (
        get_variable
          (if same_double source (from_int64 (pos 1))
            then codes "LHC_CLOCK"
            else codes "INTERNAL_CLOCK")
          settings)

  unfoldable pub set_clock : Board Double → List (Setting Double) → Changed Double
  unfolding system_clock
  set_clock board settings = elim (system_clock board settings) [
    | err e ↦ (settings, some e)
    | ok clock ↦ elim (set_variable (codes "SYSTEM_CLOCK") clock settings) [
      | err e ↦ (settings, some (variable_thrown e))
      | ok next ↦ (next, none)
    ]
  ]

  unfoldable pub updated : Bytes → List (Setting Double) → Changed Double
  updated name settings = elim (update_variable platform name settings) [
    | err e ↦ (settings, some (variable_thrown e))
    | ok (next, fresh) ↦ (next, none)
  ]

  -- `updateEnvironment`: the clock, and then what is computed of it.
  unfoldable pub update_environment : Board Double → List (Setting Double) → Changed Double
  unfolding set_clock updated unless_thrown
  update_environment board settings =
      unless_thrown (unless_thrown (set_clock board settings) (updated (codes "TDC")))
        (updated (codes "BC_INTERVAL"))

  -- Only the TCM changes the variables.
  unfoldable pub environment_of : Board Double → List (Setting Double) → Changed Double
  unfolding update_environment
  environment_of board settings = elim board.type [
    | pm ↦ (settings, none)
    | tcm ↦ update_environment board settings
  ]

  -- The clock's entry.
  unfoldable pub clock_entry :
      Board Double → List (Setting Double) → Fallible Escape (List (Entry Double))
  clock_entry board settings = elim board.type [
    | pm ↦ ok []
    | tcm ↦ (do
      clock ← through_variables (get_variable (codes "SYSTEM_CLOCK") settings)
      ok (value (codes "SYSTEM_CLOCK", clock) ∷ []))
  ]
