-- ===== src/Tests/Counters.antt =====
-- Examples of the theorems on a round of CounterRates.
use fit_fred.Common.{ℕ, ◌+◌, ◌≡◌, refl, arith, Bytes, codes, [], ◌∷◌, some, List, map, All}
use fit_fred.Common.Int.{ℤ, pos}
use fit_fred.Utils.Decimal.{decimal, read_digits}
use fit_fred.Board.Defs.{tcm}
use fit_fred.Services.Exchange.{Alf}
use fit_fred.Services.Requests.{get_all, comma, newline}
use fit_fred.Services.CounterRates.{ReadoutResult, start, unchanged, single, success}
use fit_fred.Services.CounterRates.Text.{Formats, get_string}
use fit_fred.Services.CounterRates.Text.Lines.{
  IsPlain, counters_line, readout_lines, get_string-read_back,
}
use fit_fred.Services.CounterRates.Run.{Service}
use fit_fred.Tests.Fixtures.{board, unsigned_byte, handler}

-- Formats that write one digit.
abbrev digits : Formats
digits = record {
  print_interval = λ n. codes "1";
  print_rate = λ r. codes "2";
  print_milliseconds = λ rounded n. codes "3";
}

digits-IsPlain : IsPlain digits
digits-IsPlain = record {
  interval = λ n. ((λ e. absurd (omega arith)), tt);
  rate = λ r. ((λ e. absurd (omega arith)), tt);
  milliseconds = λ rounded n. ((λ e. absurd (omega arith)), tt);
}

abbrev readout : ReadoutResult
readout = record {
  interval_state = unchanged;
  read_interval = 10;
  fifo_state = single;
  fifo_load = 2;
  result = success;
  counters = some (7 ∷ 4294967295 ∷ []);
  rates = some ((7, 10) ∷ (0, 10) ∷ []);
}

get_string-read_back_example :
    (get_all newline (get_string digits readout 1500) ≡ readout_lines digits readout 1500)
    × (get_all comma (counters_line readout.counters)
        ≡ codes "COUNTERS" ∷ map decimal (7 ∷ 4294967295 ∷ []))
    × All (λ c. read_digits 0 (decimal c) ≡ some c) (7 ∷ 4294967295 ∷ [])
get_string-read_back_example =
    get_string-read_back digits readout 1500 (7 ∷ 4294967295 ∷ []) digits-IsPlain refl
      (omega arith, (omega arith, tt))

-- The electronics counts its sequences and answers each with a failure.
abbrev alf : Alf ℕ
alf w text = (w + 1, codes "failure\n")

-- The board has read its interval, 1 s.
abbrev service : Service ℕ ℤ
service = record {
  world = 0;
  handler = record handler {
    board = record board {
      parameters =
          record unsigned_byte {
            name = codes "COUNTER_READ_INTERVAL";
            electronic_value = some (pos 4);
          }
          ∷ record unsigned_byte { name = codes "COUNTERS_FIFO_LOAD" }
          ∷ [];
    };
  };
  counters = start tcm 10;
}

abbrev twice : List Bytes
twice = codes "RESET" ∷ codes "RESET" ∷ []
