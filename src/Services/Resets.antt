-- ===== src/Services/Resets.antt =====
-- mapi/src/services/Reset.cpp and ResetErrors.cpp: the reset bits of the GBT interface.
pub mod Outcomes
use fit_fred.Common.{
  ℕ, Bytes, codes, [], ◌∷◌, ◌++◌, List, ◌||◌, if◌then◌else◌, Bool, true, false, bytes_eq,
}
use fit_fred.Platform.{Platform}
use fit_fred.Handler.Defs.{Handler}
use fit_fred.WinCc.Request.Build.{write_request, append_to_request}
use fit_fred.Services.Exchange.{Alf}
use fit_fred.Services.Chain.{Step, Report, send, send_all}
use fit_fred.Services.ResetFee.Spi.{with_parent}

-- What a service publishes.
pub data Published : Type 0 where
  success : Published
  unexpected_request : Bytes → Published
  failure : Report → Published

-- A write of the same value to each parameter.
unfoldable pub write_each : List Bytes → ℕ → Bytes → Bytes
unfolding append_to_request write_request
write_each [] value request = request
write_each (name ∷ names) value request =
    write_each names value (append_to_request request (write_request name value))

-- The parameters of the reset bits, in the order of ResetErrors.
abbrev pub reset_bits : List Bytes
reset_bits =
    codes "GBT_RESET"
    ∷ codes "GBT_RESET_DATA_COUNTERS"
    ∷ codes "GBT_START_OF_EMULATION"
    ∷ codes "GBT_RESET_ORBIT_SYNC"
    ∷ codes "GBT_RESET_READOUT_FSM"
    ∷ codes "GBT_RESET_RX_ERROR"
    ∷ codes "GBT_RESET_RX_PHASE_ERROR"
    ∷ codes "GBT_RESET_ERROR_REPORT_FIFO"
    ∷ []

unfoldable pub clear_reset_bits : Bytes
unfolding write_each
clear_reset_bits = write_each reset_bits 0 []

unfoldable pub clear_and_unlock : Bytes
unfolding append_to_request write_request
clear_and_unlock =
    append_to_request (write_each reset_bits 0 []) (write_request (codes "GBT_FORCE_IDLE") 0)

unfoldable pub apply_resets : Bytes
unfolding write_each
apply_resets =
    write_each
      (codes "GBT_RESET_RX_ERROR"
        ∷ codes "GBT_RESET_READOUT_FSM"
        ∷ codes "GBT_RESET_ERROR_REPORT_FIFO"
        ∷ [])
      1 []

abbrev is_member : Bytes → List Bytes → Bool
is_member name [] = false
is_member name (n ∷ ns) = bytes_eq n name || is_member name ns

-- The publication of a report, if there is one.
abbrev pub failures : Report → List Published
failures [] = []
failures (e ∷ es) = failure (e ∷ es) ∷ []

-- `SUCCESS`, if nothing is reported.
abbrev pub success_of : Report → List Published
success_of [] = success ∷ []
success_of (e ∷ es) = []

-- The PMs hold the TCM itself, whose values may have changed since.
unfoldable pub sharing :
    {Double : Type 0} → Handler Double → List (Handler Double) → List (Handler Double)
sharing tcm [] = []
sharing tcm (h ∷ hs) = with_parent tcm h ∷ sharing tcm hs

module _ (platform : Platform) {W : Type 0} (alf : Alf W) where
  open platform use {Double}

  -- `Reset::processExecution` with a request, after the bits were cleared; the request is not checked
  -- any more. `clear` is the request that clears the bits.
  reset_cleared : W → Handler Double → Bytes → Bytes → W × Handler Double × List Published
  unfolding send write_request
  reset_cleared w h clear request =
      let (set, middle, report) = send platform alf w h (write_request request 1, true) in
      let (end, last, second) = send platform alf set middle (clear, true) in
      (end, last, failures report ++ (failures second ++ success_of report))

  after_clearing : W × Handler Double × Report → Bytes → Bytes → W × Handler Double × List Published
  unfolding reset_cleared
  after_clearing (w, h, []) clear request = reset_cleared w h clear request
  after_clearing (w, h, e ∷ es) clear request = (w, h, failure (e ∷ es) ∷ [])

  -- `names` are the reset parameters in the order of the `unordered_map` that holds them.
  unfoldable pub reset :
      List Bytes → W → Handler Double → Bytes → W × Handler Double × List Published
  unfolding after_clearing write_each
  reset names w h request =
      let clear = write_each names 0 [] in
      let (end, last, published) =
        after_clearing (send platform alf w h (clear, true)) clear request in
      (
        end,
        last,
        if is_member request names then published else unexpected_request request ∷ published,
      )

  -- `applyResetBoard`.
  unfoldable pub apply_reset_board : W → Handler Double → W × Handler Double × Report
  apply_reset_board w h =
      send_all platform alf w h
        ((clear_reset_bits, true) ∷ (apply_resets, true) ∷ (clear_and_unlock, true) ∷ [])

  -- A board behind the others, unless one of them failed.
  behind : Handler Double → W × List (Handler Double) × Report → W × List (Handler Double) × Report
  behind h (w, hs, report) = (w, h ∷ hs, report)

  stop_or :
      Handler Double
      → List (Handler Double)
      → W
      → Report
      → W × List (Handler Double) × Report
      → W × List (Handler Double) × Report
  unfolding behind
  stop_or h hs w [] rest = behind h rest
  stop_or h hs w (e ∷ es) rest = (w, h ∷ hs, e ∷ es)

  -- The loop over the PMs, which stops at the first board that fails.
  unfoldable pub reset_boards : W → List (Handler Double) → W × List (Handler Double) × Report
  unfolding stop_or
  reset_boards w [] = (w, [], [])
  reset_boards w (h ∷ hs) =
      let reset_board = apply_reset_board w h in
      stop_or reset_board.1 hs reset_board.0 reset_board.2 (reset_boards reset_board.0 hs)

  restart :
      W
      → Handler Double
      → List (Handler Double)
      → Report
      → W × Handler Double × List (Handler Double) × List Published
  unfolding write_request
  restart w tcm pms (e ∷ es) = (w, tcm, pms, failure (e ∷ es) ∷ [])
  restart w tcm pms [] =
      let (end, last, report) =
        send platform alf w tcm (write_request (codes "BOARD_STATUS_SYSTEM_RESTARTED") 1, false) in
      (end, last, pms, failures report ++ success_of report)

  reset_pms :
      W
      → Handler Double
      → List (Handler Double)
      → Report
      → W × Handler Double × List (Handler Double) × List Published
  unfolding restart sharing
  reset_pms w tcm pms (e ∷ es) = (w, tcm, pms, failure (e ∷ es) ∷ [])
  reset_pms w tcm pms [] =
      let (after, next, report) = reset_boards w (sharing tcm pms) in restart after tcm next report

  -- `ResetErrors::processExecution` with a request.
  unfoldable pub reset_errors :
      W
      → Handler Double
      → List (Handler Double)
      → W × Handler Double × List (Handler Double) × List Published
  unfolding reset_pms
  reset_errors w tcm pms =
      let (after, next, report) = apply_reset_board w tcm in reset_pms after next pms report
