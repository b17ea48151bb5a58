-- ===== src/Tests/Services.antt =====
-- Examples of the theorems on the counters and on block reads.
use fit_fred.Common.{
  ◌+◌, ◌%◌, ◌≤◌, ◌<◌, ◌≡◌, ◌↔◌, refl, arith, ok, none, some, [], ◌∷◌, All, true, false, inr,
}
use fit_fred.Common.Int.{ℤ, pos, negsuc}
use fit_fred.Services.DelayChange.{change_of}
use fit_fred.Services.DelayChange.Difference.{change_of-none}
use fit_fred.Tests.Fixtures.{signed_byte}
use fit_fred.Board.Defs.{ParameterInfo}
use fit_fred.Board.Defs.{tcm}
use fit_fred.Handler.Fifo.{fifo_content}
use fit_fred.Services.CounterRates.{
  Counters, FifoReadResult, success, start, evaluate_fifo_state, words_to_read, reset_counters,
  handle_counter_values, partial,
}
use fit_fred.Services.CounterRates.Load.{words_to_read-multiple}
use fit_fred.Services.CounterRates.Rates.{
  plus, per_interval, rates_across_reset, handle_counter_values-total, IsSized,
}
use fit_fred.Services.BlockRead.{block_operations}
use fit_fred.Services.BlockRead.Packets.{range, covered, IsPacket, block_operations-covered}

block_operations-covered_example :
    (covered (block_operations 4096 true 2500) ≡ range true 4096 2500)
    × All IsPacket (block_operations 4096 true 2500)
block_operations-covered_example = block_operations-covered 4096 true 2500 (omega arith)

load_20_is_partial : evaluate_fifo_state (start tcm 10) 20 ≡ partial
unfolding evaluate_fifo_state start
load_20_is_partial = refl

words_to_read-multiple_example :
    let c = start tcm 10 in
    let words = words_to_read c (evaluate_fifo_state c 20) 20 in
    (words % c.number_of_counters ≡ 0)
    × (c.number_of_counters ≤ words)
    × (words ≤ c.max_fifo_words)
    × (20 ≤ words)
    × (words < 20 + c.number_of_counters)
words_to_read-multiple_example = words_to_read-multiple tcm 10 20 (inr (inr load_20_is_partial))

-- Two counters, read each second.
abbrev two : Counters
two = record {
  number_of_counters = 2;
  max_fifo_words = 4;
  counters = some (4294967295 ∷ 7 ∷ []);
  rates = none;
  read_interval = 10;
}

rates_across_reset_example :
    (next : Counters) × (reset_counters two (plus (4294967295 ∷ 7 ∷ []) (3 ∷ 4 ∷ [])) ≡ ok next)
    × (handle_counter_values next (fifo_content ((5 ∷ 6 ∷ []) ∷ [])) false
        ≡ ok (
          record two {
            counters = some (5 ∷ 6 ∷ []);
            rates = some (per_interval 10 (plus (3 ∷ 4 ∷ []) (5 ∷ 6 ∷ [])));
          },
          success,
        ))
rates_across_reset_example =
    rates_across_reset two (4294967295 ∷ 7 ∷ []) (3 ∷ 4 ∷ []) (5 ∷ 6 ∷ []) refl refl refl refl

two-IsSized : IsSized two
two-IsSized = record { sized = λ row e. ground arith }

handle_counter_values-total_example :
    (next : Counters) × (result : FifoReadResult) × (handle_counter_values two
        (fifo_content ((1 ∷ 2 ∷ []) ∷ (3 ∷ 4 ∷ []) ∷ []))
        false
      ≡ ok (next, result))
    × (next.number_of_counters ≡ 2)
    × IsSized next
handle_counter_values-total_example =
    handle_counter_values-total two (1 ∷ 2 ∷ []) ((3 ∷ 4 ∷ []) ∷ []) false two-IsSized
      (refl, (refl, tt))

-- A delay that is known to be -5.
abbrev known : ParameterInfo ℤ
known = record signed_byte { electronic_value = some (negsuc 4) }

change_of-none_example :
    (change_of known known (some (negsuc 4)) (some (pos 3)) ≡ none)
    ↔ ((negsuc 4 ≡ negsuc 4) × (negsuc 4 ≡ pos 3))
change_of-none_example =
    change_of-none known known (negsuc 4) (negsuc 4) (negsuc 4) (pos 3) refl refl (omega arith)
      (omega arith)
