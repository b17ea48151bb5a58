-- ===== src/Services/Requests/Queue.antt =====
-- The queue of a service: what is inserted, and what is executed.
use fit_fred.Common.{
  ◌≡◌, refl, ap, subst, Fallible, ok, err, Bytes, [], ◌∷◌, ◌++◌, none, some, List, false, bytes_eq,
  bytes_eq→, Bool-cases, inl, inr,
}
use fit_fred.Services.Requests.{
  Handlers, RequestError, RequestExecutionResult, insert, collect, executed_first, execute_all,
  execute_single_request, execute_queued_requests,
}

-- No request is the same as the one before it.
abbrev pub HasNoRepeat : List Bytes → Type 0
HasNoRepeat [] = Unit
HasNoRepeat (r ∷ []) = Unit
HasNoRepeat (r ∷ next ∷ requests) = (bytes_eq r next ≡ false) × HasNoRepeat (next ∷ requests)

insert-HasNoRepeat :
    (requests : List Bytes) (request : Bytes)
    → HasNoRepeat requests
    → HasNoRepeat (insert requests request)
unfolding insert
insert-HasNoRepeat [] request h = tt
insert-HasNoRepeat (last ∷ []) request h = elim (Bool-cases (bytes_eq last request)) [
  | inl e ↦ rw (insert, e) tt
  | inr e ↦ rw (insert, e) (e, tt)
]
insert-HasNoRepeat (r ∷ next ∷ []) request (h, hs) = elim (Bool-cases (bytes_eq next request)) [
  | inl e ↦ rw (insert, insert, e) (h, tt)
  | inr e ↦ rw (insert, insert, e) (h, (e, tt))
]
insert-HasNoRepeat (r ∷ next ∷ third ∷ requests) request (h, hs) =
    (h, insert-HasNoRepeat (next ∷ third ∷ requests) request hs)

collect-HasNoRepeat :
    (requests available : List Bytes)
    → HasNoRepeat requests
    → HasNoRepeat (collect requests available)
unfolding collect
collect-HasNoRepeat requests [] h = h
collect-HasNoRepeat requests (request ∷ available) h =
    collect-HasNoRepeat (insert requests request) available (insert-HasNoRepeat requests request h)

-- A queue without some of its repetitions: of the same requests in a row at least one is kept, and
-- nothing else is left out.
pub data Condenses : List Bytes → List Bytes → Type 0 where
  nothing : Condenses [] []
  kept :
      (request : Bytes) (available requests : List Bytes)
      → Condenses available requests
      → Condenses (request ∷ available) (request ∷ requests)
  repeated :
      (request : Bytes) (available requests : List Bytes)
      → Condenses (request ∷ available) requests
      → Condenses (request ∷ request ∷ available) requests

-- What is collected behind a first request does not change it.
collect-cons :
    (request last : Bytes) (requests available : List Bytes)
    → collect (request ∷ last ∷ requests) available ≡ request ∷ collect (last ∷ requests) available
unfolding collect insert
collect-cons request last requests [] = refl
collect-cons request last [] (next ∷ available) = elim (Bool-cases (bytes_eq last next)) [
  | inl e ↦ rw (collect, insert, insert, e) (collect-cons request last [] available)
  | inr e ↦ rw (collect, insert, insert, e) (collect-cons request last (next ∷ []) available)
]
collect-cons request last (second ∷ requests) (next ∷ available) =
    collect-cons request last (insert (second ∷ requests) next) available

collect-Condenses_from :
    (last : Bytes) (available : List Bytes)
    → Condenses (last ∷ available) (collect (last ∷ []) available)
unfolding collect insert
collect-Condenses_from last [] = kept last [] [] nothing
collect-Condenses_from last (next ∷ available) = elim (Bool-cases (bytes_eq last next)) [
  | inl e ↦
      let rest = repeated last available _ (collect-Condenses_from last available) in
      rw (collect, insert, e)
        (subst (λ r. Condenses (last ∷ r ∷ available) (collect (last ∷ []) available))
          (bytes_eq→ last next e) rest)
  | inr e ↦
      rw (collect, insert, e, collect-cons last next [] available)
        (kept last (next ∷ available) _ (collect-Condenses_from next available))
]

collect-Condenses : (available : List Bytes) → Condenses available (collect [] available)
unfolding collect insert
collect-Condenses [] = nothing
collect-Condenses (request ∷ available) = collect-Condenses_from request available

-- The state after the requests of a list that all succeed, one after the other.
pub data Runs {E S : Type 0} (handlers : Handlers E S) : S → List Bytes → S → Type 0 where
  stop : (s : S) → Runs handlers s [] s
  step :
      (s next end : S) (request text : Bytes) (requests : List Bytes)
      → execute_single_request handlers s request ≡ (next, ok (ok text))
      → Runs handlers next requests end
      → Runs handlers s (request ∷ requests) end

-- How a list of requests is executed, and the result: all of them succeed; or some of them do and the
-- next one fails; or some of them do and the next one throws.
pub data IsExecuted {E S : Type 0} (handlers : Handlers E S) (s : S)
    : S → List Bytes → Fallible E RequestExecutionResult → Type 0 where
  finished :
      (end : S) (requests : List Bytes)
      → Runs handlers s requests end
      → IsExecuted handlers s end requests
          (ok (record { executed = requests; skipped = []; error = none }))
  ended :
      (before end : S) (executed rest : List Bytes) (request : Bytes) (e : RequestError)
      → Runs handlers s executed before
      → execute_single_request handlers before request ≡ (end, ok (err e))
      → IsExecuted handlers s end
          (executed ++ (request ∷ rest))
          (ok (record { executed = executed; skipped = request ∷ rest; error = some e }))
  thrown :
      (before end : S) (executed rest : List Bytes) (request : Bytes) (e : E)
      → Runs handlers s executed before
      → execute_single_request handlers before request ≡ (end, err e)
      → IsExecuted handlers s end (executed ++ (request ∷ rest)) (err e)

behind_first :
    {E S : Type 0} (handlers : Handlers E S) (s next end : S) (request text : Bytes)
    (requests : List Bytes) (result : Fallible E RequestExecutionResult)
    → execute_single_request handlers s request ≡ (next, ok (ok text))
    → IsExecuted handlers next end requests result
    → IsExecuted handlers s end (request ∷ requests) (executed_first request result)
behind_first handlers s next end request text requests result first (finished _ _ runs) =
    finished end (request ∷ requests) (step s next end request text requests first runs)
behind_first handlers s next end request text requests result first
      (ended before _ executed rest failing e runs q) =
    ended before end (request ∷ executed) rest failing e
      (step s next before request text executed first runs) q
behind_first handlers s next end request text requests result first
      (thrown before _ executed rest failing e runs q) =
    thrown before end (request ∷ executed) rest failing e
      (step s next before request text executed first runs) q

-- The result of the first request decides.
first-IsExecuted :
    {E S : Type 0} (handlers : Handlers E S) (s : S) (request : Bytes) (requests : List Bytes)
    (result : Fallible E (Fallible RequestError Bytes))
    → (execute_single_request handlers s request).1 ≡ result
    → let rest = execute_all handlers (execute_single_request handlers s request).0 requests in
      IsExecuted handlers (execute_single_request handlers s request).0 rest.0 requests rest.1
      → let all = execute_all handlers s (request ∷ requests) in
        IsExecuted handlers s all.0 (request ∷ requests) all.1
unfolding execute_all
first-IsExecuted handlers s request requests (err e) q rest =
    let next = (execute_single_request handlers s request).0 in
    rw (execute_all, q) (thrown s next [] requests request e (stop s) (ap (λ r. (next, r)) q))
first-IsExecuted handlers s request requests (ok (err e)) q rest =
    let next = (execute_single_request handlers s request).0 in
    rw (execute_all, q) (ended s next [] requests request e (stop s) (ap (λ r. (next, r)) q))
first-IsExecuted handlers s request requests (ok (ok text)) q rest =
    let next = (execute_single_request handlers s request).0 in
    rw (execute_all, q)
      (behind_first handlers s next _ request text requests _ (ap (λ r. (next, r)) q) rest)

execute_all-IsExecuted :
    {E S : Type 0} (handlers : Handlers E S) (s : S) (requests : List Bytes)
    → let result = execute_all handlers s requests in
      IsExecuted handlers s result.0 requests result.1
unfolding execute_all
execute_all-IsExecuted handlers s [] = finished s [] (stop s)
execute_all-IsExecuted handlers s (request ∷ requests) =
    let first = execute_single_request handlers s request in
    first-IsExecuted handlers s request requests first.1 refl
      (execute_all-IsExecuted handlers first.0 requests)

-- Whatever the queue and the handlers: the requests that `executeQueuedRequests` takes from the
-- queue are those of the queue in their order, of which only repetitions in a row are left out, and
-- all of these are; they are executed one after the other, each on the state that the one before
-- left, and either all of them succeed and are reported as executed; or one fails, whose error is
-- reported, with the ones before it as executed and it and the ones behind it as skipped; or one
-- throws, and its exception leaves.
pub execute_queued_requests-IsExecuted :
    {E S : Type 0} (handlers : Handlers E S) (s : S) (available : List Bytes)
    → let result = execute_queued_requests handlers s available in
      (requests : List Bytes) × Condenses available requests
      × HasNoRepeat requests
      × IsExecuted handlers s result.0 requests result.1
unfolding execute_queued_requests
execute_queued_requests-IsExecuted handlers s available = (
  collect [] available,
  collect-Condenses available,
  collect-HasNoRepeat [] available tt,
  execute_all-IsExecuted handlers s (collect [] available),
)
