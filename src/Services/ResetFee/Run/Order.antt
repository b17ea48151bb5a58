-- ===== src/Services/ResetFee/Run/Order.antt =====
-- The order of the requests of the reset.
use fit_fred.Common.{
  ℕ, ◌≡◌, refl, sym, subst, Fallible, ok, err, Fallible-cases, Bytes, codes, [], ◌∷◌, ◌++◌, List,
  ◌%◌, ◌^◌, if◌then◌else◌, Bool, true, false, inl, inr,
}
use fit_fred.Utils.Decimal.{decimal}
use fit_fred.WinCc.Request.Build.{write_request, append_to_request}
use fit_fred.Handler.Defs.{Error, Handler}
use fit_fred.Platform.{Platform}
use fit_fred.Board.Defs as Board
use fit_fred.Board.Defs.{at, ParameterInfo}
use fit_fred.Database.Rows.{ConfigurationValue}
use fit_fred.Services.Exchange.{Alf}
use fit_fred.Services.Chain.{Step, Report, send, Succeeds, Ending, stopped, send_all-ends}
use fit_fred.Services.ResetFee.Spi.{value_or_zero}
use fit_fred.Services.ResetFee.Requests.{reset_steps}
use fit_fred.Services.ResetFee.Run.{Fee, FeeError, thrown, reported, outcome_of, apply_reset_fee}

-- The requests of the reset with the update rate of the counters, and whether what they write is read
-- back: the error reports are switched off, the system is reset with the clock that is asked for, the
-- reset is finished, the error reports are switched on, and the rate is written again.
abbrev pub reset_requests : Bool → ℕ → List Step
reset_requests force_local_clock rate =
    (codes "GBT_RESET_ERROR_REPORT_FIFO,WRITE,1", true)
    ∷ (
      codes "BOARD_STATUS_RESET_SYSTEM,WRITE,1\n"
          ++ (if force_local_clock
              then codes "BOARD_STATUS_FORCE_LOCAL_CLOCK,WRITE,1"
              else codes "BOARD_STATUS_FORCE_LOCAL_CLOCK,WRITE,0"),
      false,
    )
    ∷ (codes "BOARD_STATUS_SYSTEM_RESTARTED,WRITE,1", false)
    ∷ (codes "GBT_RESET_ERROR_REPORT_FIFO,WRITE,0", true)
    ∷ (codes "COUNTER_READ_INTERVAL,WRITE," ++ decimal rate, true)
    ∷ []

reset_steps_lem :
    (force_local_clock : Bool) (rate : ℕ)
    → reset_steps force_local_clock rate ≡ reset_requests force_local_clock rate
unfolding reset_steps write_request append_to_request decimal
reset_steps_lem true rate = refl
reset_steps_lem false rate = refl

-- How the reset ends: the TCM has no update rate, and nothing is sent; or all five requests were sent
-- in their order and answered without an error; or those before one were, that one failed, and none
-- behind it was sent.
module _ (platform : Platform) {W : Type 0} (alf : Alf W) where
  open platform use {Double}

  pub data ResetEnd (s : Fee W Double) : Fee W Double × Fallible FeeError (Unit {0}) → Type 0 where
    no_rate :
        (f : Board.Error)
        → at s.tcm.board (codes "COUNTER_READ_INTERVAL") ≡ err f
        → ResetEnd s (s, err (thrown f))
    complete :
        (info : ParameterInfo Double) (w : W) (tcm : Handler Double)
        → at s.tcm.board (codes "COUNTER_READ_INTERVAL") ≡ ok info
        → Succeeds platform alf s.world s.tcm
            (reset_requests s.force_local_clock (value_or_zero info.electronic_value % 2 ^ 8))
            w
            tcm
        → ResetEnd s (record s { world = w; tcm = tcm }, ok tt)
    failed :
        (info : ParameterInfo Double) (w between : W) (tcm middle : Handler Double)
        (before after : List Step) (failing : Step) (e : Bytes × Error) (es : Report)
        → at s.tcm.board (codes "COUNTER_READ_INTERVAL") ≡ ok info
        → reset_requests s.force_local_clock (value_or_zero info.electronic_value % 2 ^ 8)
          ≡ before ++ (failing ∷ after)
        → Succeeds platform alf s.world s.tcm before between middle
        → send platform alf between middle failing ≡ (w, tcm, e ∷ es)
        → ResetEnd s (record s { world = w; tcm = tcm }, err (reported (e ∷ es)))

  ended :
      (s : Fee W Double) (info : ParameterInfo Double) (steps : List Step)
      (result : W × Handler Double × Report)
      → at s.tcm.board (codes "COUNTER_READ_INTERVAL") ≡ ok info
      → reset_requests s.force_local_clock (value_or_zero info.electronic_value % 2 ^ 8) ≡ steps
      → Ending platform alf s.world s.tcm steps result
      → ResetEnd s (record s { world = result.0; tcm = result.1 }, outcome_of (ok result.2))
  ended s info steps result given same (Ending.complete _ end _ last _ succeeds) =
      complete info end last given
        (subst (λ r. Succeeds platform alf s.world s.tcm r end last) (sym same) succeeds)
  ended s info steps result given same
        (stopped _ between end _ middle last before after failing e es succeeds q) =
      failed info end between last middle before after failing e es given same succeeds q

  -- Whatever the boards and the electronics: applying the reset throws before it sends anything if the
  -- TCM has no parameter of the update rate; or all five requests, with the update rate that the board
  -- had before, were sent to the TCM in their order and answered without an error; or those before one
  -- were, that one was answered with the errors that are reported, and none behind it was sent.
  pub apply_reset_fee-outcome :
      (fetch : Bytes → List ConfigurationValue) (s : Fee W Double)
      → ResetEnd s (apply_reset_fee platform alf fetch s)
  unfolding apply_reset_fee
  apply_reset_fee-outcome fetch s =
      elim (Fallible-cases (at s.tcm.board (codes "COUNTER_READ_INTERVAL"))) [
        | inr (f, e) ↦ rw (apply_reset_fee, e) (no_rate f e)
        | inl (info, e) ↦
            let rate = value_or_zero info.electronic_value % 2 ^ 8 in
            let steps = reset_steps s.force_local_clock rate in
            rw (apply_reset_fee, e)
              (ended s info steps _ e (sym (reset_steps_lem s.force_local_clock rate))
                (send_all-ends platform alf steps s.world s.tcm))
      ]
