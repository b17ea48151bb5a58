-- ===== src/Utils/Gbt.antt =====
-- mapi/src/utils/gbtInterfaceUtils.cpp: the error reports of the GBT interface, and its rates. A rate
-- is kept as its dividend and its divisor.

use fit_fred.Common.{ℕ, ◌-◌, Bytes, codes, [], ◌∷◌, List, ◌==◌, leb, if◌then◌else◌}

-- `constants::FifoSize`.
abbrev pub fifo_size : ℕ
fifo_size = 36

-- The four kinds of reports, each with the words of the FIFO.
pub data GbtError : Type 0 where
  bc_sync_lost fifo_overload pm_early_header unknown : List ℕ → GbtError

-- `getErrorCode`: 0xEEEE000A, 0xEEEE0008 and 0xEEEE0009.
abbrev pub bc_sync_lost_code : ℕ
bc_sync_lost_code = 4008574986

abbrev pub fifo_overload_code : ℕ
fifo_overload_code = 4008574984

abbrev pub pm_early_header_code : ℕ
pm_early_header_code = 4008574985

-- The first word of the array, which has 36.
abbrev pub first_word : List ℕ → ℕ
first_word [] = 0
first_word (word ∷ words) = word

unfoldable pub parse_fifo_data : List ℕ → GbtError
parse_fifo_data words =
    if first_word words == bc_sync_lost_code
    then bc_sync_lost words
    else if first_word words == fifo_overload_code
    then fifo_overload words
    else if first_word words == pm_early_header_code
    then pm_early_header words
    else unknown words

-- The parameter that `createWinCCResponse` reports with the value 1.
unfoldable pub error_parameter : GbtError → Bytes
error_parameter (bc_sync_lost words) = codes "GBT_ERR_BC_SYNC_LOST"
error_parameter (fifo_overload words) = codes "GBT_ERR_FIFO_OVERLOAD"
error_parameter (pm_early_header words) = codes "GBT_ERR_PM_EARLY_HEADER"
error_parameter (unknown words) = codes "GBT_ERR_UNKNOWN"

pub record Rate : Type 0 where
  pub dividend : ℕ
  pub divisor : ℕ

-- `GbtRate::updateRate` without the assignment of the new count. A count below the old one is the
-- rate as it is.
unfoldable pub rate_of : ℕ → ℕ → ℕ → Rate
rate_of old_count new_count interval =
    if leb old_count new_count
    then record { dividend = new_count - old_count; divisor = interval }
    else record { dividend = new_count; divisor = 1 }

-- `GbtRateMonitor`, with the interval in milliseconds.
pub record GbtRateMonitor : Type 0 where
  pub time_interval : ℕ
  pub words_count : ℕ
  pub events_count : ℕ

-- `updateRates`: the two rates, and the monitor with the new counts.
unfoldable pub update_rates : GbtRateMonitor → ℕ → ℕ → GbtRateMonitor × List (Bytes × Rate)
unfolding rate_of
update_rates monitor words_count events_count = (
  record monitor { words_count = words_count; events_count = events_count },
  (codes "GBT_WORDS_RATE", rate_of monitor.words_count words_count monitor.time_interval)
      ∷ (codes "GBT_EVENTS_RATE", rate_of monitor.events_count events_count monitor.time_interval)
      ∷ [],
)
