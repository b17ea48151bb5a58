-- ===== src/Services/Requests.antt =====
-- services/templates/LoopingFitIndefiniteMapi: the requests that queue up for a service, with the
-- `Splitter` of utils/utils.h that takes them apart. A service's handlers are a function from the
-- prefix to an action on the service's state.
pub mod Split
pub mod Queue
pub mod Wake
use fit_fred.Common.{
  ℕ, ◌≡◌, refl, arith, Fallible, ok, err, Bytes, codes, [], ◌∷◌, ◌++◌, Option, none, some, List,
  ◌==◌, if◌then◌else◌, Bool, true, false, bytes_eq,
}

-- `getAll`: a token at each delimiter, and the rest if anything is left of it. `started` says that
-- the token at hand is not at the end of the sequence.
split : ℕ → Bytes → Bool → Bytes → List Bytes
split delimiter token false [] = []
split delimiter token true [] = token ∷ []
split delimiter token started (c ∷ s) = elim (c == delimiter) [
  | true ↦ token ∷ split delimiter [] false s
  | false ↦ split delimiter (token ++ (c ∷ [])) true s
]

unfoldable pub get_all : ℕ → Bytes → List Bytes
unfolding split
get_all delimiter s = split delimiter [] false s

abbrev pub comma : ℕ
comma = 44

abbrev pub newline : ℕ
newline = 10

pub data RequestError : Type 0 where
  malformed : Bytes → RequestError
  unexpected : Bytes → RequestError
  failed : Bytes → RequestError

-- The prefix and the arguments, or nothing if the request is malformed.
unfoldable pub parse_request : Bytes → Option (Bytes × List Bytes)
unfolding get_all
parse_request request = elim (get_all comma request) [
  | [] ↦ none
  | prefix ∷ arguments ↦ some (prefix, arguments)
]

-- `m_requestHandlers`, for a service with a state. A handler may throw what `E` says, and returns an
-- answer or an error message otherwise.
abbrev pub Handlers : Type 0 → Type 0 → Type 0
Handlers E S = Bytes → Option (List Bytes → S → S × Fallible E (Fallible Bytes Bytes))

-- What the handler's result says.
handled :
    {E S : Type 0}
    → S × Fallible E (Fallible Bytes Bytes)
    → S × Fallible E (Fallible RequestError Bytes)
handled (s, err e) = (s, err e)
handled (s, ok (ok text)) = (s, ok (ok text))
handled (s, ok (err message)) = (s, ok (err (failed message)))

unfoldable pub execute_single_request :
    {E S : Type 0} → Handlers E S → S → Bytes → S × Fallible E (Fallible RequestError Bytes)
unfolding parse_request handled
execute_single_request handlers s request = elim (parse_request request) [
  | none ↦ (s, ok (err (malformed request)))
  | some (prefix, arguments) ↦ elim (handlers prefix) [
    | none ↦ (s, ok (err (unexpected prefix)))
    | some handler ↦ handled (handler arguments s)
  ]
]

-- A request that is the same as the last one in the list is not inserted.
unfoldable pub insert : List Bytes → Bytes → List Bytes
insert [] request = request ∷ []
insert (last ∷ []) request = if bytes_eq last request then last ∷ [] else last ∷ request ∷ []
insert (r ∷ next ∷ requests) request = r ∷ insert (next ∷ requests) request

pub collect : List Bytes → List Bytes → List Bytes
unfolding insert
collect requests [] = requests
collect requests (request ∷ available) = collect (insert requests request) available

pub record RequestExecutionResult : Type 0 where
  pub executed : List Bytes
  pub skipped : List Bytes
  pub error : Option RequestError

abbrev pub executed_first :
    {E : Type 0} → Bytes → Fallible E RequestExecutionResult → Fallible E RequestExecutionResult
executed_first request (err e) = err e
executed_first request (ok result) = ok (record result { executed = request ∷ result.executed })

-- The loop over the requests, which stops at the first error. An exception of a handler leaves it.
pub execute_all :
    {E S : Type 0} → Handlers E S → S → List Bytes → S × Fallible E RequestExecutionResult
unfolding execute_single_request
execute_all handlers s [] = (s, ok (record { executed = []; skipped = []; error = none }))
execute_all handlers s (request ∷ requests) =
    let (next, result) = execute_single_request handlers s request in
    elim result [
      | err e ↦ (next, err e)
      | ok (err e) ↦
          (next, ok (record { executed = []; skipped = request ∷ requests; error = some e }))
      | ok (ok text) ↦
          let (end, after) = execute_all handlers next requests in
          (end, executed_first request after)
    ]

-- `executeQueuedRequests` while the service is running, on the requests that are available.
unfoldable pub execute_queued_requests :
    {E S : Type 0} → Handlers E S → S → List Bytes → S × Fallible E RequestExecutionResult
unfolding collect execute_all
execute_queued_requests handlers s available = execute_all handlers s (collect [] available)
