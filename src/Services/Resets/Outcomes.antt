-- ===== src/Services/Resets/Outcomes.antt =====
-- What the publication of a success means.
use fit_fred.Common.{
  ◌≡◌, refl, sym, ap, subst, codes, [], ◌∷◌, ◌++◌, List, true, false, ◌⊎◌, inl, inr,
}
use fit_fred.Platform.{Platform}
use fit_fred.Handler.Defs.{Handler}
use fit_fred.WinCc.Request.Build.{write_request}
use fit_fred.Services.Exchange.{Alf}
use fit_fred.Services.Chain.{Step, Report, send, Succeeds, send_all-Succeeds}
use fit_fred.Services.Resets.{
  Published, success, failure, clear_reset_bits, apply_resets, clear_and_unlock, apply_reset_board,
  stop_or, reset_boards, sharing, restart, reset_pms, reset_errors, failures, success_of,
}

nothing_reported :
    (report : Report) → failures report ++ success_of report ≡ success ∷ [] → report ≡ []
nothing_reported [] h = refl
nothing_reported (e ∷ es) h = cc

-- The requests for one board.
abbrev pub board_steps : List Step
board_steps = (clear_reset_bits, true) ∷ (apply_resets, true) ∷ (clear_and_unlock, true) ∷ []

abbrev pub restart_step : Step
restart_step = (write_request (codes "BOARD_STATUS_SYSTEM_RESTARTED") 1, false)

module _ (platform : Platform) {W : Type 0} (alf : Alf W) where
  open platform use {Double}

  -- All requests to each board of a list succeed, board by board.
  pub data AllReset : W → List (Handler Double) → W → List (Handler Double) → Type 0 where
    none_left : (w : W) → AllReset w [] w []
    one_reset :
        (w between end : W) (h next : Handler Double) (hs nexts : List (Handler Double))
        → Succeeds platform alf w h board_steps between next
        → AllReset between hs end nexts
        → AllReset w (h ∷ hs) end (next ∷ nexts)

  stop_or-success :
      (w : W) (h : Handler Double) (hs : List (Handler Double)) (between : W)
      (next : Handler Double) (report : Report) (rest : W × List (Handler Double) × Report)
      → (report ≡ [] → Succeeds platform alf w h board_steps between next)
      → (rest.2 ≡ [] → AllReset between hs rest.0 rest.1)
      → (stop_or platform alf next hs between report rest).2 ≡ []
      → AllReset w
          (h ∷ hs)
          (stop_or platform alf next hs between report rest).0
          (stop_or platform alf next hs between report rest).1
  unfolding stop_or
  stop_or-success w h hs between next [] (end, nexts, report) board all e =
      one_reset w between end h next hs nexts (board refl) (all e)
  stop_or-success w h hs between next (f ∷ fs) rest board all e = cc

  board-success :
      (w : W) (h : Handler Double)
      → (apply_reset_board platform alf w h).2 ≡ []
      → Succeeds platform alf w h board_steps
          (apply_reset_board platform alf w h).0
          (apply_reset_board platform alf w h).1
  unfolding apply_reset_board
  board-success w h e = send_all-Succeeds platform alf board_steps w h e

  reset_boards-success :
      (hs : List (Handler Double)) (w : W)
      → (reset_boards platform alf w hs).2 ≡ []
      → AllReset w hs (reset_boards platform alf w hs).0 (reset_boards platform alf w hs).1
  unfolding reset_boards
  reset_boards-success [] w e = none_left w
  reset_boards-success (h ∷ hs) w e =
      let sent = apply_reset_board platform alf w h in
      stop_or-success w h hs sent.0 sent.1 sent.2 (reset_boards platform alf sent.0 hs)
        (board-success w h) (reset_boards-success hs sent.0) e

  -- What `SUCCESS` says of the requests that were sent.
  abbrev pub IsReset :
      W
      → Handler Double
      → List (Handler Double)
      → W
      → Handler Double
      → List (Handler Double)
      → Type 0
  IsReset w tcm pms end last pms_after =
      (middle : W) × (next : Handler Double) × (between : W) × Succeeds platform alf w tcm
        board_steps middle next
      × AllReset middle (sharing next pms) between pms_after
      × (send platform alf between next restart_step ≡ (end, last, []))

  restart-success :
      (w : W) (tcm : Handler Double) (pms : List (Handler Double)) (report : Report)
      → (restart platform alf w tcm pms report).3 ≡ success ∷ []
      → let result = restart platform alf w tcm pms report in
        (report ≡ [])
        × (result.2 ≡ pms)
        × (send platform alf w tcm restart_step ≡ (result.0, result.1, []))
  unfolding restart
  restart-success w tcm pms (e ∷ es) h = cc
  restart-success w tcm pms [] h =
      let sent = send platform alf w tcm restart_step in
      (refl, refl, ap (λ r. (sent.0, sent.1, r)) (nothing_reported sent.2 h))

  pms-success :
      (start w : W) (first tcm : Handler Double) (pms : List (Handler Double)) (report : Report)
      → (report ≡ [] → Succeeds platform alf start first board_steps w tcm)
      → (reset_pms platform alf w tcm pms report).3 ≡ success ∷ []
      → let result = reset_pms platform alf w tcm pms report in
        IsReset start first pms result.0 result.1 result.2
  unfolding reset_pms
  pms-success start w first tcm pms (e ∷ es) board h = cc
  pms-success start w first tcm pms [] board h =
      let boards = reset_boards platform alf w (sharing tcm pms) in
      let (report, same, sent) = restart-success boards.0 tcm boards.1 boards.2 h in
      (
        w,
        tcm,
        boards.0,
        board refl,
        subst (λ r. AllReset w (sharing tcm pms) boards.0 r) (sym same)
            (reset_boards-success (sharing tcm pms) w report),
        sent,
      )

  reset_errors-success :
      (w : W) (tcm : Handler Double) (pms : List (Handler Double))
      → (reset_errors platform alf w tcm pms).3 ≡ success ∷ []
      → let result = reset_errors platform alf w tcm pms in
        IsReset w tcm pms result.0 result.1 result.2
  unfolding reset_errors
  reset_errors-success w tcm pms h =
      let board = apply_reset_board platform alf w tcm in
      pms-success w board.0 tcm board.1 pms board.2 (board-success w tcm) h

  -- Either a success is published, or one failure is.
  abbrev pub IsVerdict : List Published → Type 0
  IsVerdict published =
      (published ≡ success ∷ []) ⊎ ((report : Report) × (published ≡ failure report ∷ []))

  report-IsVerdict : (report : Report) → IsVerdict (failures report ++ success_of report)
  report-IsVerdict [] = inl refl
  report-IsVerdict (e ∷ es) = inr (e ∷ es, refl)

  restart-IsVerdict :
      (w : W) (tcm : Handler Double) (pms : List (Handler Double)) (report : Report)
      → IsVerdict (restart platform alf w tcm pms report).3
  unfolding restart
  restart-IsVerdict w tcm pms (e ∷ es) = inr (e ∷ es, refl)
  restart-IsVerdict w tcm pms [] = report-IsVerdict (send platform alf w tcm restart_step).2

  pms-IsVerdict :
      (w : W) (tcm : Handler Double) (pms : List (Handler Double)) (report : Report)
      → IsVerdict (reset_pms platform alf w tcm pms report).3
  unfolding reset_pms
  pms-IsVerdict w tcm pms (e ∷ es) = inr (e ∷ es, refl)
  pms-IsVerdict w tcm pms [] =
      let boards = reset_boards platform alf w (sharing tcm pms) in
      restart-IsVerdict boards.0 tcm boards.1 boards.2

  errors-IsVerdict :
      (w : W) (tcm : Handler Double) (pms : List (Handler Double))
      → IsVerdict (reset_errors platform alf w tcm pms).3
  unfolding reset_errors
  errors-IsVerdict w tcm pms =
      let board = apply_reset_board platform alf w tcm in pms-IsVerdict board.0 board.1 pms board.2

  -- Whatever the boards and the electronics: ResetErrors publishes one failure, or it publishes its
  -- success, and then all requests to the TCM and to each PM, in their order, were sent and answered
  -- without an error, and after them the request that clears the restart bit of the TCM was.
  pub reset_errors-outcome :
      (w : W) (tcm : Handler Double) (pms : List (Handler Double))
      → let result = reset_errors platform alf w tcm pms in
        ((result.3 ≡ success ∷ []) × IsReset w tcm pms result.0 result.1 result.2)
        ⊎ ((report : Report) × (result.3 ≡ failure report ∷ []))
  reset_errors-outcome w tcm pms = elim (errors-IsVerdict w tcm pms) [
    | inl e ↦ inl (e, reset_errors-success w tcm pms e)
    | inr failed ↦ inr failed
  ]
