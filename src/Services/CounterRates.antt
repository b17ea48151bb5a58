-- ===== src/Services/CounterRates.antt =====
-- services/CounterRates: the counters of a board, their FIFO and the rates. An access of a vector out
-- of its bounds, which C++ does not define, is a fault of the model. A rate, a `double` quotient, is
-- kept as its dividend and its divisor, and the read interval in tenths of a second.
pub mod Load
pub mod Rates
pub mod Direct
pub mod Text
pub mod Run
use fit_fred.Common.{
  ℕ, zero, suc, ◌+◌, ◌-◌, ◌%◌, ◌^◌, ◌≡◌, refl, arith, Fallible, ok, err, ◌>>=◌, or_throw, [], ◌∷◌,
  Option, none, some, List, length, ◌==◌, ltb, leb, ◌&&◌, ◌||◌, if◌then◌else◌, Bool, true, false,
}
use fit_fred.Common.Int.{ℤ, pos, negsuc}
use fit_fred.Board.Defs.{BoardType, tcm, pm}
use fit_fred.Handler.Fifo.{FifoResponse, fifo_content, fifo_error}

pub data ReadIntervalState : Type 0 where
  disabled unknown invalid changed unchanged : ReadIntervalState

pub data FifoState : Type 0 where
  board_error empty single multiple outdated partial : FifoState

pub data FifoReadResult : Type 0 where
  failure success_no_rates success_cleared success not_performed : FifoReadResult

-- What C++ does not define.
pub data Fault : Type 0 where
  out_of_bounds : Fault

pub record Counters : Type 0 where
  pub number_of_counters : ℕ
  pub max_fifo_words : ℕ
  pub counters : Option (List ℕ)
  pub rates : Option (List (ℕ × ℕ))
  pub read_interval : ℕ

-- The constructor; `m_readInterval` is not set there, so it is a parameter.
unfoldable pub start : BoardType → ℕ → Counters
start tcm interval = record {
  number_of_counters = 15;
  max_fifo_words = 495;
  counters = none;
  rates = none;
  read_interval = interval;
}
start pm interval = record {
  number_of_counters = 24;
  max_fifo_words = 480;
  counters = none;
  rates = none;
  read_interval = interval;
}

-- `mapReadIntervalCodeToSeconds`, in tenths of a second.
unfoldable pub interval_of_code : ℤ → ℕ
interval_of_code (negsuc n) = 0
interval_of_code (pos n) =
    if n == 1
    then 1
    else if n == 2
    then 2
    else if n == 3
    then 5
    else if n == 4
    then 10
    else if n == 5
    then 20
    else if n == 6
    then 50
    else if n == 7
    then 100
    else 0

unfoldable pub reset_service : Counters → Counters
reset_service c = record c { counters = none; rates = none }

valid_code : ℤ → Bool
valid_code (pos n) = leb n 7
valid_code (negsuc n) = false

-- `handleReadInterval` from the code on that the board has, if it could be read.
unfoldable pub handle_read_interval : Counters → Option ℤ → Counters × ReadIntervalState
unfolding interval_of_code reset_service valid_code
handle_read_interval c none = (c, unknown)
handle_read_interval c (some code) =
    if valid_code code
    then (let current = interval_of_code code in
        let next = record c { read_interval = current } in
        if current == 0
        then (next, disabled)
        else if current == c.read_interval
        then (next, unchanged)
        else (reset_service next, changed))
    else (c, invalid)

unfoldable pub evaluate_fifo_state : Counters → ℕ → FifoState
evaluate_fifo_state c load =
    if load == 2 ^ 32 - 1
    then board_error
    else if load == 0
    then empty
    else if load == c.number_of_counters
    then single
    else if ltb load c.max_fifo_words && (load % c.number_of_counters == 0)
    then multiple
    else if leb c.max_fifo_words load
    then outdated
    else partial

-- `a - b` of two `uint32_t`.
abbrev pub sub_u32 : ℕ → ℕ → ℕ
sub_u32 a b = (a + (2 ^ 32 - b % 2 ^ 32)) % 2 ^ 32

-- `newValues[i] - oldValues[i]` for each of the counters.
pub subtract : ℕ → ℕ → List ℕ → List ℕ → Fallible Fault (List (ℕ × ℕ))
subtract interval zero new old = ok []
subtract interval (suc n) (a ∷ new) (b ∷ old) = do
  rest ← subtract interval n new old
  ok ((sub_u32 a b, interval) ∷ rest)
subtract interval (suc n) _ _ = err out_of_bounds

-- The last row, and the one before it or else what was kept.
pub last_two : List (List ℕ) → Option (List ℕ) → Fallible Fault (List ℕ × List ℕ)
last_two [] kept = err out_of_bounds
last_two (new ∷ []) none = err out_of_bounds
last_two (new ∷ []) (some old) = ok (new, old)
last_two (row ∷ next ∷ rows) kept = last_two (next ∷ rows) (some row)

-- The branch that computes rates.
pub update_rates : Counters → List (List ℕ) → Fallible Fault (Counters × FifoReadResult)
unfolding subtract last_two
update_rates c rows = do
  pair ← last_two rows c.counters
  rates ← subtract c.read_interval c.number_of_counters pair.0 pair.1
  ok (record c { counters = some pair.0; rates = some rates }, success)

pub counter_rows : Counters → List (List ℕ) → Fallible Fault (Counters × FifoReadResult)
unfolding update_rates
counter_rows c (row ∷ []) = elim c.counters [
  | none ↦ ok (record c { counters = some row }, success_no_rates)
  | some _ ↦ update_rates c (row ∷ [])
]
counter_rows c rows = update_rates c rows

unfoldable pub handle_counter_values :
    Counters → FifoResponse → Bool → Fallible Fault (Counters × FifoReadResult)
unfolding reset_service counter_rows
handle_counter_values c (fifo_error e) clear_only = ok (c, failure)
handle_counter_values c (fifo_content rows) clear_only =
    if clear_only then ok (reset_service c, success_cleared) else counter_rows c rows

-- `m_counters->at(i) -= directCounters[i]`.
pub subtract_direct : List ℕ → List ℕ → Fallible Fault (List ℕ)
subtract_direct [] direct = ok []
subtract_direct (a ∷ counters) [] = err out_of_bounds
subtract_direct (a ∷ counters) (b ∷ direct) = do
  rest ← subtract_direct counters direct
  ok (sub_u32 a b ∷ rest)

-- `resetCounters` after both of its exchanges with the board succeeded.
unfoldable pub reset_counters : Counters → List ℕ → Fallible Fault Counters
unfolding subtract_direct
reset_counters c direct = elim c.counters [
  | none ↦ ok c
  | some counters ↦ (do
    adjusted ← subtract_direct counters direct
    ok (record c { counters = some adjusted }))
]

-- `ReadoutResult`, but for the time that passed.
pub record ReadoutResult : Type 0 where
  pub interval_state : ReadIntervalState
  pub read_interval : ℕ
  pub fifo_state : FifoState
  pub fifo_load : ℕ
  pub result : FifoReadResult
  pub counters : Option (List ℕ)
  pub rates : Option (List (ℕ × ℕ))

-- The load that is asked for when a set of counters is not complete yet.
unfoldable pub complete : Counters → ℕ → ℕ
complete c load = (load + (c.number_of_counters - load % c.number_of_counters)) % 2 ^ 32

unfoldable pub fifo_state_of : Counters → ReadIntervalState → ℕ → FifoState
unfolding evaluate_fifo_state
fifo_state_of c changed load = outdated
fifo_state_of c _ load = evaluate_fifo_state c load

-- The words that are read from the FIFO in a state.
unfoldable pub words_to_read : Counters → FifoState → ℕ → ℕ
unfolding complete
words_to_read c partial load = complete c load
words_to_read c _ load = load

-- `readFifo` or `clearFifo`, with the answer of the board a function of the number of words.
unfoldable pub perform :
    Counters → (ℕ → FifoResponse) → FifoState → ℕ → Fallible Fault (Counters × FifoReadResult)
unfolding handle_counter_values
perform c read single words = handle_counter_values c (read words) false
perform c read multiple words = handle_counter_values c (read words) false
perform c read partial words = handle_counter_values c (read words) false
perform c read outdated words = handle_counter_values c (read words) true
perform c read _ words = ok (c, not_performed)

-- What is published of a read.
published :
    ReadIntervalState → FifoState → ℕ → Counters × FifoReadResult → Counters × Option ReadoutResult
published interval state words (next, failure) = (next, none)
published interval state words (next, result) = (
  next,
  some (record {
    interval_state = interval;
    read_interval = next.read_interval;
    fifo_state = state;
    fifo_load = words;
    result = result;
    counters = next.counters;
    rates = next.rates;
  }),
)

read_and_publish :
    Counters
    → (ℕ → FifoResponse)
    → ReadIntervalState
    → FifoState
    → ℕ
    → Fallible Fault (Counters × Option ReadoutResult)
unfolding perform published
read_and_publish c read interval state words = do
  done ← perform c read state words
  ok (published interval state words done)

unfoldable pub handle_fifo_readout :
    Counters
    → (ℕ → FifoResponse)
    → ReadIntervalState
    → Option ℕ
    → Fallible Fault (Counters × Option ReadoutResult)
unfolding fifo_state_of words_to_read read_and_publish
handle_fifo_readout c read interval none = ok (c, none)
handle_fifo_readout c read interval (some load) = elim (fifo_state_of c interval load) [
  | board_error ↦ ok (c, none)
  | empty ↦ read_and_publish c read interval empty (words_to_read c empty load)
  | single ↦ read_and_publish c read interval single (words_to_read c single load)
  | multiple ↦ read_and_publish c read interval multiple (words_to_read c multiple load)
  | outdated ↦ read_and_publish c read interval outdated (words_to_read c outdated load)
  | partial ↦ read_and_publish c read interval partial (words_to_read c partial load)
]
