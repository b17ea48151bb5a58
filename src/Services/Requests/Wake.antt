-- ===== src/Services/Requests/Wake.antt =====
-- `LoopingFitIndefiniteMapi::handleSleepAndWake`: a service that is stopped waits for a request that
-- starts it.
use fit_fred.Common.{
  ◌≡◌, refl, sym, ap, subst, ◌∙◌, Fallible, ok, err, Bytes, codes, [], ◌∷◌, ◌++◌, append_assoc,
  Option, none, some, List, if◌then◌else◌, Bool, true, false, bytes_eq,
}
use fit_fred.Services.Requests.{
  Handlers, RequestError, get_all, split, parse_request, handled, execute_single_request,
}

-- The state of a service with `m_stopped`. A handler of the service sees whether it is stopped.
pub record Looping (S : Type 0) : Type 0 where
  pub stopped : Bool
  pub inner : S

abbrev pub ServiceHandlers : Type 0 → Type 0 → Type 0
ServiceHandlers E S = Bytes → Option (List Bytes → Bool → S → S × Fallible E (Fallible Bytes Bytes))

module _ {E S : Type 0} where
  set_stopped :
      Bool → Bytes → List Bytes → Looping S → Looping S × Fallible E (Fallible Bytes Bytes)
  set_stopped stopped answer arguments s = (record s { stopped = stopped }, ok (ok answer))

  on_inner :
      (List Bytes → Bool → S → S × Fallible E (Fallible Bytes Bytes))
      → List Bytes
      → Looping S
      → Looping S × Fallible E (Fallible Bytes Bytes)
  on_inner handler arguments s =
      let (next, result) = handler arguments s.stopped s.inner in
      (record s { inner = next }, result)

  -- The handlers that the constructor adds, and those of the service, which are for other requests.
  unfoldable pub looping : ServiceHandlers E S → Handlers E (Looping S)
  unfolding set_stopped on_inner
  looping handlers prefix =
      if bytes_eq prefix (codes "START")
      then some (set_stopped false (codes "Service started"))
      else if bytes_eq prefix (codes "STOP")
      then some (set_stopped true (codes "Service stopped"))
      else elim (handlers prefix) [ none ↦ none | some handler ↦ some (on_inner handler) ]

  -- The loop while the service is stopped, on the requests that come in; it is no longer running
  -- when there are no more. The result is the state, the requests that are left, and whether it is
  -- running, or the exception of a handler. An error message is only published.
  unfoldable pub wake :
      Handlers E (Looping S) → Looping S → List Bytes → Looping S × List Bytes × Fallible E Bool
  unfolding execute_single_request
  wake handlers s [] = (s, [], ok (if s.stopped then false else true))
  wake handlers s (request ∷ requests) =
      let executed = execute_single_request handlers s request in
      let next = wake handlers executed.0 requests in
      if s.stopped
      then elim executed.1 [ err e ↦ (executed.0, requests, err e) | ok _ ↦ next ]
      else (s, request ∷ requests, ok true)

  started :
      (handlers : ServiceHandlers E S) (inner : S)
      → execute_single_request
          (looping handlers)
          (record { stopped = true; inner = inner })
          (codes "START")
        ≡ (record { stopped = false; inner = inner }, ok (ok (codes "Service started")))
  unfolding execute_single_request looping parse_request get_all split handled set_stopped
  started handlers inner = refl

  awake :
      (handlers : Handlers E (Looping S)) (s : Looping S) (requests : List Bytes)
      → s.stopped ≡ false
      → wake handlers s requests ≡ (s, requests, ok true)
  unfolding wake
  awake handlers s [] e = rw e refl
  awake handlers s (r ∷ rs) e = rw e refl

  -- What the waiting loop leaves when a START comes in behind the requests `before`: the service is
  -- running and not stopped, with the requests behind the START; or a request before the START threw.
  pub data WakeEnd (handlers : Handlers E (Looping S)) (after : List Bytes)
      : List Bytes → Looping S × List Bytes × Fallible E Bool → Type 0 where
    woken :
        (before skipped : List Bytes) (s : Looping S)
        → s.stopped ≡ false
        → WakeEnd handlers after before (s, skipped ++ after, ok true)
    thrown :
        (earlier later : List Bytes) (request : Bytes) (s end : Looping S) (e : E)
        → execute_single_request handlers s request ≡ (end, err e)
        → WakeEnd handlers after
            (earlier ++ (request ∷ later))
            (end, later ++ (codes "START" ∷ after), err e)

  behind_request :
      (handlers : Handlers E (Looping S)) (after before : List Bytes) (request : Bytes)
      (result : Looping S × List Bytes × Fallible E Bool)
      → WakeEnd handlers after before result
      → WakeEnd handlers after (request ∷ before) result
  behind_request handlers after before request result (woken _ skipped s e) =
      woken (request ∷ before) skipped s e
  behind_request handlers after before request result (thrown earlier later failing s end e q) =
      thrown (request ∷ earlier) later failing s end e q

  -- What a service that is not stopped leaves.
  not_waiting :
      (handlers : Handlers E (Looping S)) (before after : List Bytes) (s : Looping S)
      → s.stopped ≡ false
      → WakeEnd handlers after before (wake handlers s (before ++ (codes "START" ∷ after)))
  not_waiting handlers before after s e =
      subst (λ r. WakeEnd handlers after before r)
        (sym (awake handlers s (before ++ (codes "START" ∷ after)) e))
        (subst (λ r. WakeEnd handlers after before (s, r, ok true))
          (append_assoc before (codes "START" ∷ []) after)
          (woken before (before ++ (codes "START" ∷ [])) s e))

  -- The result of a first request decides.
  after_request :
      (handlers : Handlers E (Looping S)) (before after : List Bytes) (request : Bytes) (inner : S)
      (result : Fallible E (Fallible RequestError Bytes))
      → let s : Looping S = record { stopped = true; inner = inner } in
        (execute_single_request handlers s request).1 ≡ result
        → WakeEnd handlers after before (
            wake handlers
              (execute_single_request handlers s request).0
              (before ++ (codes "START" ∷ after)))
        → WakeEnd handlers after
            (request ∷ before)
            (wake handlers s (request ∷ (before ++ (codes "START" ∷ after))))
  unfolding wake
  after_request handlers before after request inner (ok answer) q rest =
      rw (wake, q) (behind_request handlers after before request _ rest)
  after_request handlers before after request inner (err e) q rest =
      let s : Looping S = record { stopped = true; inner = inner } in
      let next = (execute_single_request handlers s request).0 in
      rw (wake, q) (thrown [] before request s next e (ap (λ r. (next, r)) q))

  wake-cons :
      (handlers : Handlers E (Looping S)) (request : Bytes) (requests : List Bytes) (inner : S)
      (answer : Fallible RequestError Bytes)
      → let s : Looping S = record { stopped = true; inner = inner } in
        (execute_single_request handlers s request).1 ≡ ok answer
        → wake handlers s (request ∷ requests)
          ≡ wake handlers (execute_single_request handlers s request).0 requests
  unfolding wake
  wake-cons handlers request requests inner answer q = rw (wake, q) refl

  wake-start_from :
      (handlers : ServiceHandlers E S) (before after : List Bytes) (stopped : Bool) (inner : S)
      → WakeEnd (looping handlers) after before (
          wake
            (looping handlers)
            (record { stopped = stopped; inner = inner })
            (before ++ (codes "START" ∷ after)))
  wake-start_from handlers before after false inner =
      not_waiting (looping handlers) before after (record { stopped = false; inner = inner }) refl
  wake-start_from handlers [] after true inner =
      let running : Looping S = record { stopped = false; inner = inner } in
      let first =
        wake-cons (looping handlers) (codes "START") after inner (ok (codes "Service started"))
          (ap (λ r. r.1) (started handlers inner)) in
      let second = ap (λ r. wake (looping handlers) r.0 after) (started handlers inner) in
      subst (λ r. WakeEnd (looping handlers) after [] r)
        (sym (first ∙ second ∙ awake (looping handlers) running after refl))
        (woken [] [] running refl)
  wake-start_from handlers (request ∷ before) after true inner =
      let first =
        execute_single_request (looping handlers) (record { stopped = true; inner = inner })
          request in
      after_request (looping handlers) before after request inner first.1 refl
        (wake-start_from handlers before after first.0.stopped first.0.inner)

  -- Whatever the handlers of the service, its state and the requests before: once a START comes in,
  -- the service wakes up, is running and not stopped, and the requests behind the START are still
  -- there; only an exception of the handler of a request before the START ends the waiting otherwise.
  pub wake-start :
      (handlers : ServiceHandlers E S) (before after : List Bytes) (s : Looping S)
      → WakeEnd
          (looping handlers)
          after
          before
          (wake (looping handlers) s (before ++ (codes "START" ∷ after)))
  wake-start handlers before after s = wake-start_from handlers before after s.stopped s.inner
