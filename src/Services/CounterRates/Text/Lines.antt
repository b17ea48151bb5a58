-- ===== src/Services/CounterRates/Text/Lines.antt =====
-- Reading the published text: its lines, and the counters of the line that has them.
use fit_fred.Common.{
  ℕ, ◌<◌, ◌^◌, ◌≡◌, refl, ap, ◌∙◌, arith, Bytes, codes, [], ◌∷◌, ◌++◌, append_assoc, append-nil,
  Option, none, some, List, map, All, All-append, ◌==◌, ◌&&◌, Bool, true, false, not, Bool-cases,
  inl, inr,
}
use fit_fred.Utils.Decimal.{decimal, read_digits, read_digits-decimal}
use fit_fred.Utils.Decimal.Digits.{IsDigit, decimal-IsDigit, decimal-full}
use fit_fred.Services.Requests.{get_all, comma, newline}
use fit_fred.Services.Requests.Split.{joined, EndsFull, IsFree, get_all-joined}
use fit_fred.Services.CounterRates.{ReadIntervalState, FifoState, FifoReadResult, ReadoutResult}
use fit_fred.Services.CounterRates.Text.{
  Formats, interval_state_text, fifo_state_text, fifo_read_result_text, each_behind_comma,
  values_text, is_rounded, get_string,
}

each-joined :
    {A : Type 0} (print : A → Bytes) (head : Bytes) (xs : List A)
    → head ++ each_behind_comma print xs ≡ joined comma (head ∷ map print xs)
unfolding each_behind_comma
each-joined print head [] = append-nil head
each-joined print head (x ∷ xs) = ap (λ r. head ++ (comma ∷ r)) (each-joined print (print x) xs)

-- A byte that is not in a text, as a test.
abbrev is_free : ℕ → Bytes → Bool
is_free d [] = true
is_free d (c ∷ s) = not (c == d) && is_free d s

is_free-IsFree : (d : ℕ) (s : Bytes) → is_free d s ≡ true → IsFree d s
is_free-IsFree d [] h = tt
is_free-IsFree d (c ∷ s) h = elim (Bool-cases (c == d)) [
  | inl e ↦ let broken : false ≡ true = rw e at h in cc
  | inr e ↦ (ground arith, is_free-IsFree d s (rw e at h))
]

digits-IsFree : (d : ℕ) (s : Bytes) → d < 48 → All IsDigit s → IsFree d s
digits-IsFree d [] h digits = tt
digits-IsFree d (c ∷ s) h (digit, digits) = (ground (arith, digit), digits-IsFree d s h digits)

decimals-IsFree : (counters : List ℕ) → All (IsFree comma) (map decimal counters)
decimals-IsFree [] = tt
decimals-IsFree (c ∷ counters) =
    (digits-IsFree comma (decimal c) (omega arith) (decimal-IsDigit c), decimals-IsFree counters)

decimals-EndsFull :
    (counters : List ℕ) (head : Bytes) → ¬ (head ≡ []) → EndsFull (head ∷ map decimal counters)
decimals-EndsFull [] head full = full
decimals-EndsFull (c ∷ counters) head full = decimals-EndsFull counters (decimal c) (decimal-full c)

-- The line of the counters.
abbrev pub counters_line : Option (List ℕ) → Bytes
counters_line counters = codes "COUNTERS" ++ values_text decimal counters

words-read :
    (counters : List ℕ)
    → All (λ c. c < 2 ^ 32) counters
    → All (λ c. read_digits 0 (decimal c) ≡ some c) counters
words-read [] h = tt
words-read (c ∷ counters) (small, h) = (read_digits-decimal c (omega arith), words-read counters h)

-- The counters of a readout, which are words of 32 bits: the line that has them is split at its
-- commas into the name and the decimal texts of the counters, in their order, and each text is read
-- as its counter.
counters_line-read :
    (counters : List ℕ)
    → All (λ c. c < 2 ^ 32) counters
    → (get_all comma (counters_line (some counters)) ≡ codes "COUNTERS" ∷ map decimal counters)
      × All (λ c. read_digits 0 (decimal c) ≡ some c) counters
unfolding values_text
counters_line-read counters h =
    let all_free : All (IsFree comma) (codes "COUNTERS" ∷ map decimal counters) =
      (is_free-IsFree comma (codes "COUNTERS") refl, decimals-IsFree counters) in
    let full = decimals-EndsFull counters (codes "COUNTERS") (λ e. cc) in
    (
      ap (get_all comma) (each-joined decimal (codes "COUNTERS") counters)
          ∙ get_all-joined comma (codes "COUNTERS" ∷ map decimal counters) all_free full,
      words-read counters h,
    )

state-is_free : (state : ReadIntervalState) → is_free newline (interval_state_text state) ≡ true
unfolding interval_state_text
state-is_free ReadIntervalState.invalid = refl
state-is_free ReadIntervalState.unknown = refl
state-is_free ReadIntervalState.disabled = refl
state-is_free ReadIntervalState.changed = refl
state-is_free ReadIntervalState.unchanged = refl

fifo-is_free : (state : FifoState) → is_free newline (fifo_state_text state) ≡ true
unfolding fifo_state_text
fifo-is_free FifoState.board_error = refl
fifo-is_free FifoState.empty = refl
fifo-is_free FifoState.single = refl
fifo-is_free FifoState.multiple = refl
fifo-is_free FifoState.outdated = refl
fifo-is_free FifoState.partial = refl

result-is_free : (result : FifoReadResult) → is_free newline (fifo_read_result_text result) ≡ true
unfolding fifo_read_result_text
result-is_free FifoReadResult.failure = refl
result-is_free FifoReadResult.success_no_rates = refl
result-is_free FifoReadResult.success_cleared = refl
result-is_free FifoReadResult.success = refl
result-is_free FifoReadResult.not_performed = refl

-- The six lines of a readout.
abbrev pub readout_lines : Formats → ReadoutResult → ℕ → List Bytes
readout_lines formats r elapsed =
    (codes "READ_INTERVAL,"
      ++ (interval_state_text r.interval_state
          ++ (codes "," ++ (formats.print_interval r.read_interval ++ codes "s"))))
    ∷ (codes "FIFO_STATE," ++ (fifo_state_text r.fifo_state ++ (codes "," ++ decimal r.fifo_load)))
    ∷ (codes "FIFO_READ_RESULT," ++ fifo_read_result_text r.result)
    ∷ counters_line r.counters
    ∷ (codes "RATES" ++ values_text formats.print_rate r.rates)
    ∷ (codes "PREV_ELAPSED,"
        ++ (formats.print_milliseconds (is_rounded r.rates) elapsed ++ codes "ms"))
    ∷ []

get_string-joined :
    (formats : Formats) (r : ReadoutResult) (elapsed : ℕ)
    → get_string formats r elapsed ≡ joined newline (readout_lines formats r elapsed)
unfolding get_string
get_string-joined formats r elapsed = simp append_assoc refl

-- Numbers are written without a line break.
pub record IsPlain (formats : Formats) : Type 0 where
  pub interval : (n : ℕ) → IsFree newline (formats.print_interval n)
  pub rate : (r : ℕ × ℕ) → IsFree newline (formats.print_rate r)
  pub milliseconds :
      (rounded : Bool) (n : ℕ) → IsFree newline (formats.print_milliseconds rounded n)

literal-append :
    (literal s : Bytes)
    → is_free newline literal ≡ true
    → IsFree newline s
    → IsFree newline (literal ++ s)
literal-append literal s h free = All-append _ literal s (is_free-IsFree newline literal h) free

decimal-IsFree : (n : ℕ) → IsFree newline (decimal n)
decimal-IsFree n = digits-IsFree newline (decimal n) (omega arith) (decimal-IsDigit n)

each-IsFree :
    {A : Type 0} (print : A → Bytes) (xs : List A)
    → ((x : A) → IsFree newline (print x))
    → IsFree newline (each_behind_comma print xs)
unfolding each_behind_comma
each-IsFree print [] free = tt
each-IsFree print (x ∷ xs) free =
    literal-append (codes ",") _ refl
      (All-append _ (print x) _ (free x) (each-IsFree print xs free))

values-IsFree :
    {A : Type 0} (print : A → Bytes) (xs : Option (List A))
    → ((x : A) → IsFree newline (print x))
    → IsFree newline (values_text print xs)
unfolding values_text
values-IsFree print none free = is_free-IsFree newline (codes ",-") refl
values-IsFree print (some xs) free = each-IsFree print xs free

lines-IsFree :
    (formats : Formats) (r : ReadoutResult) (elapsed : ℕ)
    → IsPlain formats
    → All (IsFree newline) (readout_lines formats r elapsed)
lines-IsFree formats r elapsed plain =
    let interval = literal-append (codes "READ_INTERVAL,") _ refl (
      literal-append (interval_state_text r.interval_state) _ (state-is_free r.interval_state) (
        literal-append (codes ",") _ refl (
          All-append _ (formats.print_interval r.read_interval) _ (plain.interval r.read_interval)
            (is_free-IsFree newline (codes "s") refl)))) in
    let fifo = literal-append (codes "FIFO_STATE,") _ refl (
      literal-append (fifo_state_text r.fifo_state) _ (fifo-is_free r.fifo_state)
        (literal-append (codes ",") _ refl (decimal-IsFree r.fifo_load))) in
    let result =
      literal-append (codes "FIFO_READ_RESULT,") _ refl
        (is_free-IsFree newline (fifo_read_result_text r.result) (result-is_free r.result)) in
    let counters =
      literal-append (codes "COUNTERS") _ refl (values-IsFree decimal r.counters decimal-IsFree) in
    let rates =
      literal-append (codes "RATES") _ refl (values-IsFree formats.print_rate r.rates plain.rate) in
    let elapsed_line = literal-append (codes "PREV_ELAPSED,") _ refl (
      All-append _ (formats.print_milliseconds (is_rounded r.rates) elapsed) _
        (plain.milliseconds (is_rounded r.rates) elapsed)
        (is_free-IsFree newline (codes "ms") refl)) in
    (interval, (fifo, (result, (counters, (rates, (elapsed_line, tt))))))

-- A readout with counters that are words of 32 bits, and formats that write numbers without a line
-- break: the published text is split at its line breaks into six lines; the fourth is split at its
-- commas into the name and one text for each counter, in their order, and each of these texts is read
-- as its counter.
pub get_string-read_back :
    (formats : Formats) (r : ReadoutResult) (elapsed : ℕ) (counters : List ℕ)
    → IsPlain formats
    → r.counters ≡ some counters
    → All (λ c. c < 2 ^ 32) counters
    → (get_all newline (get_string formats r elapsed) ≡ readout_lines formats r elapsed)
      × (get_all comma (counters_line r.counters) ≡ codes "COUNTERS" ∷ map decimal counters)
      × All (λ c. read_digits 0 (decimal c) ≡ some c) counters
get_string-read_back formats r elapsed counters plain q words =
    let (split, read) = counters_line-read counters words in
    (
      ap (get_all newline) (get_string-joined formats r elapsed)
          ∙ get_all-joined newline (readout_lines formats r elapsed)
              (lines-IsFree formats r elapsed plain) (λ e. cc),
      rw q split,
      read,
    )
