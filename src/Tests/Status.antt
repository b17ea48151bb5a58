-- ===== src/Tests/Status.antt =====
-- Examples of the theorems on the status of a board.
use fit_fred.Common.{ℕ, ◌+◌, ◌≡◌, arith, codes, [], ◌∷◌, refl, some}
use fit_fred.Common.Int.{ℤ, pos}
use fit_fred.Board.Defs.{ParameterInfo, find}
use fit_fred.Handler.Defs.{Handler}
use fit_fred.Services.Exchange.{Alf}
use fit_fred.Services.BoardStatus.Run.{check_gbt_errors}
use fit_fred.Services.BoardStatus.Bounded.{IsBounded, check_gbt_errors-IsBounded}
use fit_fred.Tests.Fixtures.{platform, board, fifo, unsigned_byte, handler}

-- The FIFO of the error reports, and the parameter that says that it is not empty.
abbrev reports : ParameterInfo ℤ
reports = record fifo { name = codes "GBT_ERROR_REPORT"; reg_block_size = 36 }

abbrev gbt_handler : Handler ℤ
gbt_handler = record handler {
  board = record board {
    parameters =
        reports
        ∷ record unsigned_byte {
          name = codes "GBT_FIFO_EMPTY_ERROR_REPORT";
          physical_value = some (pos 0);
        }
        ∷ [];
  };
}

abbrev alf : Alf ℕ
alf w text = (w + 1, codes "success\n0\n")

reports_are_found : find (codes "GBT_ERROR_REPORT") gbt_handler.board.parameters ≡ some reports
unfolding find
reports_are_found = refl

check_gbt_errors-IsBounded_example : IsBounded (check_gbt_errors platform alf [] 0 gbt_handler).2
check_gbt_errors-IsBounded_example =
    check_gbt_errors-IsBounded platform alf [] 0 gbt_handler reports reports_are_found (omega arith)
      (omega arith)
