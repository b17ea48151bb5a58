-- ===== src/Services/CounterRates/Run/Allowed.antt =====
-- When a round of CounterRates may execute the requests of its queue.
use fit_fred.Common.{◌≡◌, refl, Option, none, some, Bool, true, false}
use fit_fred.Services.CounterRates.{
  ReadIntervalState, disabled, unknown, invalid, changed, unchanged, FifoReadResult, failure,
  success_no_rates, success_cleared, success, not_performed, ReadoutResult,
}
use fit_fred.Services.CounterRates.Run.{may_execute}

unperformed :
    (x : FifoReadResult)
    → ◌≡◌ {A = Bool} (elim x [ not_performed ↦ false | _ ↦ true ]) false
    → x ≡ not_performed
unperformed failure h = cc
unperformed success_no_rates h = cc
unperformed success_cleared h = cc
unperformed success h = cc
unperformed not_performed h = refl

-- When the requests may be executed: there is no readout, or the readout is disabled, or the FIFO was
-- read or cleared.
pub data Allows : ReadIntervalState → Option ReadoutResult → Type 0 where
  not_read : (interval : ReadIntervalState) → Allows interval none
  readout_disabled : (readout : Option ReadoutResult) → Allows disabled readout
  was_read :
      (interval : ReadIntervalState) (r : ReadoutResult)
      → ¬ (r.result ≡ not_performed)
      → Allows interval (some r)

performed :
    (x : FifoReadResult)
    → ◌≡◌ {A = Bool} (elim x [ not_performed ↦ false | _ ↦ true ]) true
    → ¬ (x ≡ not_performed)
performed failure h e = cc
performed success_no_rates h e = cc
performed success_cleared h e = cc
performed success h e = cc
performed not_performed h e = cc

pub may_execute-Allows :
    (interval : ReadIntervalState) (readout : Option ReadoutResult)
    → may_execute interval readout ≡ true
    → Allows interval readout
unfolding may_execute
may_execute-Allows interval none h = not_read interval
may_execute-Allows disabled (some r) h = readout_disabled (some r)
may_execute-Allows unknown (some r) h = was_read unknown r (performed r.result h)
may_execute-Allows invalid (some r) h = was_read invalid r (performed r.result h)
may_execute-Allows changed (some r) h = was_read changed r (performed r.result h)
may_execute-Allows unchanged (some r) h = was_read unchanged r (performed r.result h)

-- The requests wait only behind a readout that did not read the FIFO.
pub may_execute-refused :
    (interval : ReadIntervalState) (readout : Option ReadoutResult)
    → may_execute interval readout ≡ false
    → ¬ (interval ≡ disabled)
      × ((r : ReadoutResult) × (readout ≡ some r) × (r.result ≡ not_performed))
unfolding may_execute
may_execute-refused interval none h = cc
may_execute-refused disabled (some r) h = cc
may_execute-refused unknown (some r) h = ((λ e. cc), (r, refl, unperformed r.result h))
may_execute-refused invalid (some r) h = ((λ e. cc), (r, refl, unperformed r.result h))
may_execute-refused changed (some r) h = ((λ e. cc), (r, refl, unperformed r.result h))
may_execute-refused unchanged (some r) h = ((λ e. cc), (r, refl, unperformed r.result h))
