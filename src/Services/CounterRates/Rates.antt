-- ===== src/Services/CounterRates/Rates.antt =====
-- The rates that CounterRates computes, across a reset of the counters on the board.
use fit_fred.Common.{
  ℕ, zero, suc, ◌+◌, ◌%◌, ◌^◌, ◌≡◌, refl, arith, ok, [], ◌∷◌, some, List, length, Bool, true, false,
  All, Option-cases, inl, inr, sym,
}
use fit_fred.Handler.Fifo.{fifo_content}
use fit_fred.Services.CounterRates.{
  Counters, FifoReadResult, success, success_cleared, success_no_rates, reset_service, sub_u32,
  subtract, subtract_direct, update_rates, counter_rows, last_two, handle_counter_values,
  reset_counters,
}

-- The sums of two rows of `uint32_t`.
abbrev pub plus : List ℕ → List ℕ → List ℕ
plus (x ∷ xs) (y ∷ ys) = (x + y) % 2 ^ 32 ∷ plus xs ys
plus _ _ = []

abbrev pub per_interval : ℕ → List ℕ → List (ℕ × ℕ)
per_interval interval [] = []
per_interval interval (d ∷ ds) = (d, interval) ∷ per_interval interval ds

-- The wrapped difference to an adjusted counter counts across the reset.
across_reset : (k e v : ℕ) → sub_u32 v (sub_u32 k ((k + e) % 2 ^ 32)) ≡ (e + v) % 2 ^ 32
across_reset k e v = omega arith

adjusted_rows :
    (interval n : ℕ) (kept extra new : List ℕ)
    → length kept ≡ n
    → length extra ≡ n
    → length new ≡ n
    → (adjusted : List ℕ) × (subtract_direct kept (plus kept extra) ≡ ok adjusted)
      × (subtract interval n new adjusted ≡ ok (per_interval interval (plus extra new)))
unfolding subtract_direct subtract
adjusted_rows interval zero [] [] [] hk he hn = ([], refl, refl)
adjusted_rows interval (suc n) (k ∷ kept) (e ∷ extra) (v ∷ new) hk he hn =
    let (adjusted, direct, rates) =
      adjusted_rows interval n kept extra new (omega arith) (omega arith) (omega arith) in
    (sub_u32 k ((k + e) % 2 ^ 32) ∷ adjusted, rw direct, rw (rates, across_reset k e v))
adjusted_rows _ _ _ _ _ hk he hn = absurd (omega arith)

-- For rows of all counters: counters of which `kept` was read last grow by `extra`, `resetCounters`
-- reads them and sets them to zero, and the next row that is read is `new`: the rates are those of
-- the increments `extra + new`, modulo 2 ^ 32, and `new` is kept.
pub rates_across_reset :
    (c : Counters) (kept extra new : List ℕ)
    → c.counters ≡ some kept
    → length kept ≡ c.number_of_counters
    → length extra ≡ c.number_of_counters
    → length new ≡ c.number_of_counters
    → (next : Counters) × (reset_counters c (plus kept extra) ≡ ok next)
      × (handle_counter_values next (fifo_content (new ∷ [])) false
          ≡ ok (
            record c {
              counters = some new;
              rates = some (per_interval c.read_interval (plus extra new));
            },
            success,
          ))
unfolding reset_counters handle_counter_values counter_rows update_rates last_two
rates_across_reset c kept extra new has hk he hn =
    let (adjusted, direct, rates) =
      adjusted_rows c.read_interval c.number_of_counters kept extra new hk he hn in
    (record c { counters = some adjusted }, rw (has, direct), rw rates)

-- The rows that CounterRates keeps are complete.
abbrev pub IsComplete : ℕ → List ℕ → Type 0
IsComplete n row = length row ≡ n

pub record IsSized (c : Counters) : Type 0 where
  pub sized : (row : List ℕ) → c.counters ≡ some row → length row ≡ c.number_of_counters

subtract-total :
    (interval n : ℕ) (new old : List ℕ)
    → length new ≡ n
    → length old ≡ n
    → (rates : List (ℕ × ℕ)) × (subtract interval n new old ≡ ok rates)
unfolding subtract
subtract-total interval zero new old hn ho = ([], refl)
subtract-total interval (suc n) (a ∷ new) (b ∷ old) hn ho =
    let (rates, e) = subtract-total interval n new old (omega arith) (omega arith) in
    ((sub_u32 a b, interval) ∷ rates, rw e)
subtract-total _ _ _ _ hn ho = absurd (omega arith)

last_two-total :
    (n : ℕ) (row : List ℕ) (rows : List (List ℕ)) (old : List ℕ)
    → All (IsComplete n) (row ∷ rows)
    → length old ≡ n
    → (new : List ℕ) × (before : List ℕ) × (last_two (row ∷ rows) (some old) ≡ ok (new, before))
      × (length new ≡ n)
      × (length before ≡ n)
unfolding last_two
last_two-total n row [] old (h, _) ho = (row, old, refl, h, ho)
last_two-total n row (next ∷ rows) old (h, hs) ho = last_two-total n next rows row hs h

update_rates-total :
    (c : Counters) (new before : List ℕ) (rows : List (List ℕ))
    → last_two rows c.counters ≡ ok (new, before)
    → length new ≡ c.number_of_counters
    → length before ≡ c.number_of_counters
    → (next : Counters) × (update_rates c rows ≡ ok (next, success))
      × (next.number_of_counters ≡ c.number_of_counters)
      × IsSized next
unfolding update_rates
update_rates-total c new before rows two hn hb =
    let (rates, e) = subtract-total c.read_interval c.number_of_counters new before hn hb in
    (
      record c { counters = some new; rates = some rates },
      rw (two, e),
      refl,
      record { sized = λ row q. let same : new ≡ row = cc in rw (sym same) hn },
    )

-- A FIFO answer of complete rows, of which there is at least one, and counters that are complete if
-- any are kept: `handleCounterValues` accesses no vector out of its bounds, and the counters that are
-- kept after it are complete again.
pub handle_counter_values-total :
    (c : Counters) (row : List ℕ) (rows : List (List ℕ)) (clear_only : Bool)
    → IsSized c
    → All (IsComplete c.number_of_counters) (row ∷ rows)
    → (next : Counters) × (result : FifoReadResult) × (handle_counter_values c
          (fifo_content (row ∷ rows))
          clear_only
        ≡ ok (next, result))
      × (next.number_of_counters ≡ c.number_of_counters)
      × IsSized next
unfolding handle_counter_values reset_service counter_rows
handle_counter_values-total c row rows true sized all =
    (reset_service c, success_cleared, refl, refl, record { sized = λ r q. cc })
handle_counter_values-total c row [] false sized (h, _) = elim (Option-cases c.counters) [
  | inl e ↦ (
    record c { counters = some row },
    success_no_rates,
    rw e,
    refl,
    record { sized = λ r q. let same : row ≡ r = cc in rw (sym same) h },
  )
  | inr (old, e) ↦
      let (new, before, two, hn, hb) =
        last_two-total c.number_of_counters row [] old (h, tt) (sized.sized old e) in
      let (next, done, same, kept) = update_rates-total c new before (row ∷ []) (rw e two) hn hb in
      (next, success, rw (counter_rows, e) done, same, kept)
]
handle_counter_values-total c row (second ∷ rows) false sized (h, hs) =
    let (new, before, two, hn, hb) = last_two-total c.number_of_counters second rows row hs h in
    let (next, done, same, kept) =
      update_rates-total c new before (row ∷ second ∷ rows) two hn hb in
    (next, success, done, same, kept)
