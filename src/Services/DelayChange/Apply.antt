-- ===== src/Services/DelayChange/Apply.antt =====
-- `DelayChange::apply`, and the service SetPhaseDelay (mapi/src/services/SetPhaseDelay.cpp) around it.
use fit_fred.Common.{
  Fallible, ok, err, Bytes, codes, [], ◌∷◌, Option, none, some, List, Bool, true, false,
}
use fit_fred.Common.Int.{ℤ}
use fit_fred.Platform.{Platform}
use fit_fred.Handler.Defs.{Error, Handler}
use fit_fred.Handler.Receive.{Outcome}
use fit_fred.WinCc.Request.Build.{write_request, write_electronic_request, append_to_request}
use fit_fred.Services.Exchange.{Alf, process_sequence_through_handler}
use fit_fred.Services.DelayChange.{DelayChange, ChangeError, from_wincc_request}

-- The text of the writes, as `fromElectronicValues` appends them.
unfoldable pub delay_request : List (Bytes × ℤ) → Bytes → Bytes
unfolding append_to_request write_electronic_request
delay_request [] request = request
delay_request ((name, value) ∷ writes) request =
    delay_request writes (append_to_request request (write_electronic_request name value))

-- The request that clears the bit of a restart.
unfoldable pub clear_restarted : Bytes
unfolding append_to_request write_request
clear_restarted = append_to_request [] (write_request (codes "BOARD_STATUS_SYSTEM_RESTARTED") 1)

module _ (platform : Platform) {W : Type 0} (alf : Alf W) where
  open platform use {Double}

  -- What follows the change: nothing if it failed. The outcome of the clearing is not looked at.
  unfoldable pub clear_behind :
      W
      → Handler Double
      → Outcome Double
      → List (Bytes × Error)
      → Bool
      → W × Handler Double × Outcome Double
  clear_behind w h out (e ∷ es) clear = (w, h, out)
  clear_behind w h out [] false = (w, h, out)
  clear_behind w h out [] true =
      let (end, last, _) =
        process_sequence_through_handler platform alf w h clear_restarted false in
      (end, last, out)

  -- `apply`; the waiting for the phase shift is not modelled.
  unfoldable pub apply :
      W → Handler Double → DelayChange → Bool → W × Handler Double × Outcome Double
  unfolding clear_behind
  apply w h change clear =
      let (after, next, out) =
        process_sequence_through_handler platform alf w h (delay_request change.writes []) true in
      clear_behind after next out out.report clear

  -- `SetPhaseDelay::processExecution` with a request: an exception, no change, or the outcome of one,
  -- which is an error exactly if something is reported.
  unfoldable pub set_phase_delay :
      W
      → Handler Double
      → Bytes
      → W × Handler Double × Fallible ChangeError (Option (Outcome Double))
  unfolding apply
  set_phase_delay w h request = elim (from_wincc_request platform h.board request) [
    | err e ↦ (w, h, err e)
    | ok none ↦ (w, h, ok none)
    | ok (some change) ↦ let (end, last, out) = apply w h change true in (end, last, ok (some out))
  ]
