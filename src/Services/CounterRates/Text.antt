-- ===== src/Services/CounterRates/Text.antt =====
-- `CounterRates::ReadoutResult::getString`: the text that is published of a readout.
pub mod Lines
use fit_fred.Common.{ℕ, Bytes, codes, [], ◌∷◌, ◌++◌, Option, none, some, List, Bool, true, false}
use fit_fred.Utils.Decimal.{decimal}
use fit_fred.Services.CounterRates.{
  ReadIntervalState, disabled, unknown, invalid, changed, unchanged, FifoState, board_error, empty,
  single, multiple, outdated, partial, FifoReadResult, failure, success_no_rates, success_cleared,
  success, not_performed, ReadoutResult,
}

-- How `std::stringstream` writes numbers: the read interval, which is given in tenths of a second, a
-- rate, which is rounded to one digit, and the milliseconds of a number of microseconds, which are
-- rounded as a rate if one was written before.
pub record Formats : Type 0 where
  pub print_interval : ℕ → Bytes
  pub print_rate : ℕ × ℕ → Bytes
  pub print_milliseconds : Bool → ℕ → Bytes

unfoldable pub interval_state_text : ReadIntervalState → Bytes
interval_state_text invalid = codes "INVALID"
interval_state_text unknown = codes "UNKNOWN"
interval_state_text disabled = codes "DISABLED"
interval_state_text changed = codes "CHANGED"
interval_state_text unchanged = codes "OK"

unfoldable pub fifo_state_text : FifoState → Bytes
fifo_state_text board_error = codes "BOARD_ERROR"
fifo_state_text empty = codes "EMPTY"
fifo_state_text single = codes "SINGLE"
fifo_state_text multiple = codes "MULTIPLE"
fifo_state_text outdated = codes "OUTDATED"
fifo_state_text partial = codes "PARTIAL"

unfoldable pub fifo_read_result_text : FifoReadResult → Bytes
fifo_read_result_text failure = codes "FAILURE"
fifo_read_result_text success_no_rates = codes "SUCCESS_NO_RATES"
fifo_read_result_text success_cleared = codes "SUCCES_CLEARED"
fifo_read_result_text success = codes "SUCCESS"
fifo_read_result_text not_performed = codes "NOT_PERFORMED"

-- The loops over the counters and the rates.
unfoldable pub each_behind_comma : {A : Type 0} → (A → Bytes) → List A → Bytes
each_behind_comma print [] = []
each_behind_comma print (x ∷ xs) = codes "," ++ (print x ++ each_behind_comma print xs)

unfoldable pub values_text : {A : Type 0} → (A → Bytes) → Option (List A) → Bytes
unfolding each_behind_comma
values_text print none = codes ",-"
values_text print (some xs) = each_behind_comma print xs

-- Whether `fixed` and `setprecision` were put into the stream.
unfoldable pub is_rounded : {A : Type 0} → Option (List A) → Bool
is_rounded (some (_ ∷ _)) = true
is_rounded _ = false

-- `getString`; `elapsed` are the microseconds of the previous round.
unfoldable pub get_string : Formats → ReadoutResult → ℕ → Bytes
unfolding interval_state_text fifo_state_text fifo_read_result_text values_text is_rounded
get_string formats r elapsed =
    codes "READ_INTERVAL,"
    ++ (interval_state_text r.interval_state
        ++ (codes ","
            ++ (formats.print_interval r.read_interval
                ++ (codes "s\nFIFO_STATE,"
                    ++ (fifo_state_text r.fifo_state
                        ++ (codes ","
                            ++ (decimal r.fifo_load
                                ++ (codes "\nFIFO_READ_RESULT,"
                                    ++ (fifo_read_result_text r.result
                                        ++ (codes "\nCOUNTERS"
                                            ++ (values_text decimal r.counters
                                                ++ (codes "\nRATES"
                                                    ++ (values_text formats.print_rate r.rates
                                                        ++ (codes "\nPREV_ELAPSED,"
                                                            ++ (formats.print_milliseconds
                                                            (is_rounded r.rates) elapsed
                                                            ++ codes "ms")))))))))))))))
