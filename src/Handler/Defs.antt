-- ===== src/Handler/Defs.antt =====
-- The state of `BoardCommunicationHandler` and what its methods throw.
use fit_fred.Common.{ℕ, ◌≡◌, Bytes, Option, List, [], Fallible, ok, err}
use fit_fred.Common.Int.{ℤ}
use fit_fred.Swt.Sequence.{SwtOperation}
use fit_fred.Alf.Hex.{ParseError}
use fit_fred.Board.Defs as Board
use fit_fred.Board.Defs.{Board}
use fit_fred.WinCc.Request.{RequestError}

pub data Error : Type 0 where
  board_error : Board.Error → Error
  request_error : RequestError → Error
  alf_error : ParseError → Error
  regblock_unsupported : Bytes → Error
  read_only : Bytes → Error
  no_data : Bytes → Error
  outside_valid_range : Bytes → ℤ → Error
  different_types : Error
  unsupported_merge : Error
  no_register_task : ℕ → Error
  alf_communication_failed : Error
  write_failed : ℕ → Error
  fifo_interleaved : Error
  fifo_after_write : Error

-- An exception of a callee passes through.
abbrev pub through {ℓ} : {A : Type ℓ} {E : Type 0} → (E → Error) → Fallible E A → Fallible Error A
through wrap (ok a) = ok a
through wrap (err e) = err (wrap e)

pub record ParameterToHandle : Type 0 where
  pub name : Bytes
  pub to_compare : Option ℕ

pub record Handler (Double : Type 0) : Type 0 where
  pub board : Board Double
  pub register_tasks : List (ℕ × List ParameterToHandle)
  pub operations : List (ℕ × SwtOperation)

-- `resetExecutionData`.
abbrev pub reset_execution_data : {Double : Type 0} → Handler Double → Handler Double
reset_execution_data h = record h { register_tasks = []; operations = [] }

pub through-eq-ok {ℓ} :
    {A : Type ℓ} {E : Type 0} (wrap : E → Error) (m : Fallible E A) {a : A}
    → through wrap m ≡ ok a
    → m ≡ ok a
through-eq-ok wrap (ok b) h = cc
through-eq-ok wrap (err e) h = cc
