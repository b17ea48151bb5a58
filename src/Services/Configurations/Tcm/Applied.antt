-- ===== src/Services/Configurations/Tcm/Applied.antt =====
-- What is sent to the TCM for a configuration, and what the publication says of it.
use fit_fred.Common.{
  ◌≡◌, refl, sym, ap, ok, err, Fallible-cases, Bytes, [], ◌∷◌, ◌++◌, Option, none, some, List, true,
  false, is_empty, ◌⊎◌, inl, inr,
}
use fit_fred.Platform.{Platform}
use fit_fred.Board.Defs as Board
use fit_fred.Handler.Defs.{Error, Handler}
use fit_fred.Handler.Receive.{Outcome}
use fit_fred.Services.Exchange.{Alf, process_sequence_through_handler}
use fit_fred.Services.Chain.{Step, Report, send, Succeeds, Succeeds-append, done, next}
use fit_fred.Services.DelayChange.{DelayChange, from_electronic_values}
use fit_fred.Services.DelayChange.Apply.{apply, clear_behind, clear_restarted, delay_request}
use fit_fred.Services.Configurations.{ConfigurationInfo}
use fit_fred.Services.Configurations.Tcm.{
  Entry, contents, Progress, go_on, published, board_thrown, applied, delay_change_failed,
  data_failed, judge_delays, judge_data, delay_step, handle_delays, handle_data, behind_data,
  behind_delays, apply_configuration,
}

report-cases :
    (report : Report) → (report ≡ []) ⊎ ((e : Bytes × Error) × (es : Report) × (report ≡ e ∷ es))
report-cases [] = inl refl
report-cases (e ∷ es) = inr (e, es, refl)

-- The request of the delays, if they change.
abbrev pub delay_steps : Option DelayChange → List Step
delay_steps none = []
delay_steps (some change) = (delay_request change.writes [], true) ∷ []

module _ (platform : Platform) {W : Type 0} (alf : Alf W) where
  open platform use {Double}

  -- How a configuration is applied.
  pub data Configured (w : W) (h : Handler Double) (info : ConfigurationInfo)
      : W × Handler Double × Progress Double → Type 0 where
    no_delays :
        (e : Board.Error)
        → from_electronic_values h.board info.delay_a_value info.delay_c_value ≡ err e
        → Configured w h info (w, h, board_thrown e)
    delays_failed :
        (end : W) (last : Handler Double) (change : DelayChange) (e : Bytes × Error) (es : Report)
        (response : List (Entry Double))
        → from_electronic_values h.board info.delay_a_value info.delay_c_value ≡ ok (some change)
        → send platform alf w h (delay_request change.writes [], true) ≡ (end, last, e ∷ es)
        → Configured w h info (end, last, published (delay_change_failed response))
    data_refused :
        (between end : W) (middle last : Handler Double) (change : Option DelayChange)
        (e : Bytes × Error) (es : Report) (response : List (Entry Double))
        → from_electronic_values h.board info.delay_a_value info.delay_c_value ≡ ok change
        → Succeeds platform alf w h (delay_steps change) between middle
        → send platform alf between middle (info.req, true) ≡ (end, last, e ∷ es)
        → Configured w h info (end, last, published (data_failed true response))
    all_applied :
        (between : W) (middle : Handler Double) (change : Option DelayChange)
        (response : List (Entry Double))
        → from_electronic_values h.board info.delay_a_value info.delay_c_value ≡ ok change
        → Succeeds platform alf w h (delay_steps change ++ ((info.req, true) ∷ [])) between middle
        → Configured w h info (
          (send platform alf between middle (clear_restarted, false)).0,
          (send platform alf between middle (clear_restarted, false)).1,
          published (applied response),
        )

  -- How the step of the delays ends.
  abbrev DelaysEnd :
      W → Handler Double → Option DelayChange → W × Handler Double × Progress Double → Type 0
  DelaysEnd w h change r =
      ((response : List (Entry Double)) × (r.2 ≡ go_on response)
        × Succeeds platform alf w h (delay_steps change) r.0 r.1)
      ⊎ ((some_change : DelayChange) × (e : Bytes × Error) × (es : Report) × (response : List
            (Entry Double))
          × (change ≡ some some_change)
          × (r.2 ≡ published (delay_change_failed response))
          × (send platform alf w h (delay_request some_change.writes [], true)
              ≡ (r.0, r.1, e ∷ es)))

  -- Without the clearing, applying is sending.
  clear_behind-unasked :
      (w : W) (h : Handler Double) (out : Outcome Double) (report : Report)
      → clear_behind platform alf w h out report false ≡ (w, h, out)
  unfolding clear_behind
  clear_behind-unasked w h out [] = refl
  clear_behind-unasked w h out (e ∷ es) = refl

  delays-judged :
      (w : W) (h : Handler Double) (change : DelayChange) (response : List (Entry Double))
      (report : Report)
      → (send platform alf w h (delay_request change.writes [], true)).2 ≡ report
      → let sent = send platform alf w h (delay_request change.writes [], true) in
        DelaysEnd w h (some change) (sent.0, sent.1, judge_delays response report)
  unfolding judge_delays
  delays-judged w h change response [] q =
      let step : Step = (delay_request change.writes [], true) in
      let sent = send platform alf w h step in
      inl (response, refl, next w sent.0 h sent.1 step [] q (done sent.0 sent.1))
  delays-judged w h change response (e ∷ es) q =
      let sent = send platform alf w h (delay_request change.writes [], true) in
      inr (change, e, es, response, refl, refl, ap (λ r. (sent.0, sent.1, r)) q)

  delay_step-ends :
      (w : W) (h : Handler Double) (change : Option DelayChange)
      → DelaysEnd w h change (delay_step platform alf w h change)
  unfolding delay_step apply send
  delay_step-ends w h none = inl ([], refl, done w h)
  delay_step-ends w h (some change) =
      let sent =
        process_sequence_through_handler platform alf w h (delay_request change.writes []) true in
      rw (clear_behind-unasked sent.0 sent.1 sent.2 sent.2.report)
        (delays-judged w h change (contents sent.2) sent.2.report refl)

  append-full :
      (response : List (Entry Double)) (x : Entry Double) (xs : List (Entry Double))
      → is_empty (response ++ (x ∷ xs)) ≡ false
  append-full [] x xs = refl
  append-full (y ∷ ys) x xs = refl

  contents-full :
      (response : List (Entry Double)) (out : Outcome Double) (e : Bytes × Error) (es : Report)
      → out.report ≡ e ∷ es
      → is_empty (response ++ contents out) ≡ false
  unfolding contents
  contents-full response out e es q = rw q (append-full response _ _)

  data-judged :
      (w between : W) (h middle : Handler Double) (info : ConfigurationInfo)
      (change : Option DelayChange) (entries : List (Entry Double)) (report : Report)
      → from_electronic_values h.board info.delay_a_value info.delay_c_value ≡ ok change
      → Succeeds platform alf w h (delay_steps change) between middle
      → (send platform alf between middle (info.req, true)).2 ≡ report
      → ((e : Bytes × Error) (es : Report) → report ≡ e ∷ es → is_empty entries ≡ false)
      → let sent = send platform alf between middle (info.req, true) in
        Configured w h info (behind_data platform alf sent.0 sent.1 (judge_data entries report))
  unfolding judge_data behind_data send
  data-judged w between h middle info change entries [] known before q full =
      let step : Step = (info.req, true) in
      let sent = send platform alf between middle step in
      all_applied sent.0 sent.1 change entries known (
        Succeeds-append platform alf w between sent.0 h middle sent.1 (delay_steps change)
          (step ∷ []) before (next between sent.0 middle sent.1 step [] q (done sent.0 sent.1)))
  data-judged w between h middle info change entries (e ∷ es) known before q full =
      let sent = send platform alf between middle (info.req, true) in
      rw (full e es refl) (
        data_refused between sent.0 middle sent.1 change e es entries known before
          (ap (λ r. (sent.0, sent.1, r)) q))

  behind_delays-Configured :
      (w between : W) (h middle : Handler Double) (info : ConfigurationInfo)
      (change : Option DelayChange) (response : List (Entry Double))
      → from_electronic_values h.board info.delay_a_value info.delay_c_value ≡ ok change
      → Succeeds platform alf w h (delay_steps change) between middle
      → Configured w h info (behind_delays platform alf between middle info (go_on response))
  unfolding behind_delays handle_data send
  behind_delays-Configured w between h middle info change response known before =
      let (after, last, out) =
        process_sequence_through_handler platform alf between middle info.req true in
      data-judged w between h middle info change (response ++ contents out) out.report known before
        refl (contents-full response out)

  -- Whatever the configuration and the electronics: the delays that are known to differ are sent
  -- first; if that fails, nothing else is sent and the failure of the delays is published. Then the
  -- data is sent; if that fails, the publication says that the configuration was applied partially,
  -- also where there was no change of the delays. Only if both were answered without an error is the
  -- configuration published as applied, and the bit of a restart is cleared behind it. Without the
  -- parameters of the delays nothing is sent.
  pub apply_configuration-Configured :
      (w : W) (h : Handler Double) (info : ConfigurationInfo)
      → Configured w h info (apply_configuration platform alf w h info)
  unfolding apply_configuration behind_delays
  apply_configuration-Configured w h info =
      elim (Fallible-cases (from_electronic_values h.board info.delay_a_value info.delay_c_value)) [
        | inr (e, q) ↦
            let thrown : handle_delays platform alf w h info ≡ (w, h, board_thrown e) =
              rw (handle_delays, q) refl in
            rw (apply_configuration, thrown) (no_delays e q)
        | inl (change, q) ↦
            let r = delay_step platform alf w h change in
            let step : handle_delays platform alf w h info ≡ r = rw (handle_delays, q) refl in
            rw (apply_configuration, step)
              (elim (delay_step-ends w h change) [
                | inl (response, p, before) ↦
                    rw p (behind_delays-Configured w r.0 h r.1 info change response q before)
                | inr (own, e, es, response, p, failed, sent) ↦
                    rw (failed, behind_delays)
                      (delays_failed r.0 r.1 own e es response (rw (sym p) q) sent)
              ])
      ]
