-- ===== src/Services/CounterRates/Load.antt =====
-- The number of words that a readout of the counter FIFO asks for.
use fit_fred.Common.{ℕ, ◌+◌, ◌%◌, ◌≤◌, ◌<◌, ◌≡◌, arith, ◌⊎◌}
use fit_fred.Board.Defs.{BoardType, tcm, pm}
use fit_fred.Services.CounterRates.{
  start, evaluate_fifo_state, words_to_read, complete, single, multiple, partial,
}

-- For both kinds of board: in the states in which counters are read, the words that are asked for
-- are a positive multiple of the number of counters, no more than the FIFO holds, no fewer than the
-- load, and exceed it by less than one set of counters.
pub words_to_read-multiple :
    (board : BoardType) (interval load : ℕ)
    → let c = start board interval in
      let state = evaluate_fifo_state c load in
      let words = words_to_read c state load in
      (state ≡ single) ⊎ (state ≡ multiple) ⊎ (state ≡ partial)
      → (words % c.number_of_counters ≡ 0)
        × (c.number_of_counters ≤ words)
        × (words ≤ c.max_fifo_words)
        × (load ≤ words)
        × (words < load + c.number_of_counters)
unfolding start evaluate_fifo_state words_to_read complete
words_to_read-multiple tcm interval load h = ground arith
words_to_read-multiple pm interval load h = ground arith
