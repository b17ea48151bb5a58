-- ===== src/Services/Chain.antt =====
-- Requests to one board, one after the other, as the services of mapi/src/services send them: the
-- first one that is answered with an error ends the chain.
use fit_fred.Common.{◌≡◌, refl, sym, ap, subst, Bytes, [], ◌∷◌, ◌++◌, List, Bool}
use fit_fred.Platform.{Platform}
use fit_fred.Handler.Defs.{Error, Handler}
use fit_fred.Services.Exchange.{Alf, process_sequence_through_handler}

-- A request, and whether what was written is read back.
abbrev pub Step : Type 0
Step = Bytes × Bool

abbrev pub Report : Type 0
Report = List (Bytes × Error)

module _ (platform : Platform) {W : Type 0} (alf : Alf W) where
  open platform use {Double}

  -- One request and its error reports.
  unfoldable pub send : W → Handler Double → Step → W × Handler Double × Report
  send w h step =
      let (after, next, out) = process_sequence_through_handler platform alf w h step.0 step.1 in
      (after, next, out.report)

  -- The rest of the chain, unless there was an error.
  unless_failed :
      W × Handler Double × Report → W × Handler Double × Report → W × Handler Double × Report
  unless_failed (after, next, []) rest = rest
  unless_failed (after, next, e ∷ es) rest = (after, next, e ∷ es)

  unfoldable pub send_all : W → Handler Double → List Step → W × Handler Double × Report
  unfolding unless_failed
  send_all w h [] = (w, h, [])
  send_all w h (step ∷ steps) =
      let sent = send w h step in unless_failed sent (send_all sent.0 sent.1 steps)

  -- Requests that are all answered without an error.
  pub data Succeeds : W → Handler Double → List Step → W → Handler Double → Type 0 where
    done : (w : W) (h : Handler Double) → Succeeds w h [] w h
    next :
        (w end : W) (h last : Handler Double) (step : Step) (steps : List Step)
        → (send w h step).2 ≡ []
        → Succeeds (send w h step).0 (send w h step).1 steps end last
        → Succeeds w h (step ∷ steps) end last

  -- How a chain ends: everything was sent and succeeded, or the requests before one that failed.
  pub data Ending : W → Handler Double → List Step → W × Handler Double × Report → Type 0 where
    complete :
        (w end : W) (h last : Handler Double) (steps : List Step)
        → Succeeds w h steps end last
        → Ending w h steps (end, last, [])
    stopped :
        (w between end : W) (h middle last : Handler Double) (before after : List Step)
        (failing : Step) (e : Bytes × Error) (es : Report)
        → Succeeds w h before between middle
        → send between middle failing ≡ (end, last, e ∷ es)
        → Ending w h (before ++ (failing ∷ after)) (end, last, e ∷ es)

  later :
      (w : W) (h : Handler Double) (step : Step) (steps : List Step)
      (result : W × Handler Double × Report)
      → (send w h step).2 ≡ []
      → Ending (send w h step).0 (send w h step).1 steps result
      → Ending w h (step ∷ steps) result
  later w h step steps result e (complete _ end _ last _ s) =
      complete w end h last (step ∷ steps) (next w end h last step steps e s)
  later w h step steps result e
        (stopped _ between end _ middle last before after failing f fs s q) =
      stopped w between end h middle last (step ∷ before) after failing f fs
        (next w between h middle step before e s) q

  -- The report of the first request decides.
  first-ends :
      (w : W) (h : Handler Double) (step : Step) (steps : List Step)
      (sent rest : W × Handler Double × Report)
      → send w h step ≡ sent
      → Ending sent.0 sent.1 steps rest
      → Ending w h (step ∷ steps) (unless_failed sent rest)
  unfolding unless_failed
  first-ends w h step steps (after, middle, []) rest e ends =
      later w h step steps rest (ap (λ r. r.2) e)
        (subst (λ r. Ending r.0 r.1 steps rest) (sym e) ends)
  first-ends w h step steps (after, middle, f ∷ fs) rest e ends =
      stopped w w after h h middle [] steps step f fs (done w h) e

  -- Whatever the requests and the electronics: either every request was sent and answered without
  -- an error, or the requests before some request were, that one failed with the report that is
  -- returned, and none behind it was sent.
  pub send_all-ends :
      (steps : List Step) (w : W) (h : Handler Double) → Ending w h steps (send_all w h steps)
  unfolding send_all
  send_all-ends [] w h = complete w w h h [] (done w h)
  send_all-ends (step ∷ steps) w h =
      let sent = send w h step in
      first-ends w h step steps sent (send_all sent.0 sent.1 steps) refl
        (send_all-ends steps sent.0 sent.1)

  Ending-Succeeds :
      (w : W) (h : Handler Double) (steps : List Step) (result : W × Handler Double × Report)
      → Ending w h steps result
      → result.2 ≡ []
      → Succeeds w h steps result.0 result.1
  Ending-Succeeds w h steps result (complete _ end _ last _ s) e = s
  Ending-Succeeds w h steps result
        (stopped _ between end _ middle last before after failing f fs s q) e =
      cc

  pub send_all-Succeeds :
      (steps : List Step) (w : W) (h : Handler Double)
      → (send_all w h steps).2 ≡ []
      → Succeeds w h steps (send_all w h steps).0 (send_all w h steps).1
  send_all-Succeeds steps w h e =
      Ending-Succeeds w h steps (send_all w h steps) (send_all-ends steps w h) e

  pub Succeeds-append :
      (w between end : W) (h middle last : Handler Double) (before after : List Step)
      → Succeeds w h before between middle
      → Succeeds between middle after end last
      → Succeeds w h (before ++ after) end last
  Succeeds-append w between end h middle last before after (done _ _) rest = rest
  Succeeds-append w between end h middle last before after (next _ _ _ _ step steps e s) rest =
      next w end h last step (steps ++ after) e
        (Succeeds-append _ between end _ middle last steps after s rest)
