-- ===== src/Tests/Requests.antt =====
-- Examples of the theorems on requests and their queue.
use fit_fred.Common.{
  ℕ, ◌≡◌, refl, arith, ok, none, some, [], ◌∷◌, List, Bytes, codes, true, bytes_eq, if◌then◌else◌,
  suc,
}
use fit_fred.Common.Int.{ℤ, pos}
use fit_fred.WinCc.Request.{CommandOperation, Request, parse_request}
use fit_fred.WinCc.Request.Uniform.{IsUniform, parse_lines, parse_request-IsUniform}
use fit_fred.Services.Requests.{Handlers, get_all, execute_queued_requests}
use fit_fred.Services.Requests.Split.{joined, get_all-joined}
use fit_fred.Services.Requests.Queue.{
  HasNoRepeat, Condenses, IsExecuted, execute_queued_requests-IsExecuted,
}
use fit_fred.Tests.Fixtures.{platform, split_at}

abbrev two_writes : Request ℤ
two_writes = record {
  commands =
      record { name = codes "DELAY"; operation = CommandOperation.write; value = some (pos 5) }
      ∷ record { name = codes "LEVEL"; operation = CommandOperation.write; value = some (pos 7) }
      ∷ [];
  is_write_flag = some true;
}

two_writes_are_parsed :
    parse_request platform (codes "DELAY,WRITE,5\nLEVEL,WRITE,7") ≡ ok two_writes
unfolding parse_request split_at
two_writes_are_parsed = refl

parse_request-IsUniform_example :
    IsUniform two_writes.is_write_flag two_writes.commands
    × (parse_lines platform
          (platform.split_string (codes "DELAY,WRITE,5\nLEVEL,WRITE,7") (codes "\n"))
        ≡ ok two_writes.commands)
parse_request-IsUniform_example =
    parse_request-IsUniform platform (codes "DELAY,WRITE,5\nLEVEL,WRITE,7") two_writes
      two_writes_are_parsed

get_all-joined_example :
    get_all 44 (joined 44 (codes "RESET" ∷ [] ∷ codes "A1" ∷ []))
    ≡ codes "RESET" ∷ [] ∷ codes "A1" ∷ []
get_all-joined_example =
    get_all-joined 44 (codes "RESET" ∷ [] ∷ codes "A1" ∷ []) (omega arith) last_is_full
  where
    last_is_full : ¬ (codes "A1" ≡ [])
    last_is_full e = cc

-- A service that counts, and knows no `STOP`.
abbrev counting : Handlers Bytes ℕ
counting prefix =
    if bytes_eq prefix (codes "START") then some (λ arguments s. (suc s, ok (ok []))) else none

abbrev three_requests : List Bytes
three_requests = codes "START" ∷ codes "START" ∷ codes "STOP" ∷ []

execute_queued_requests-IsExecuted_example :
    let result = execute_queued_requests counting 0 three_requests in
    (requests : List Bytes) × Condenses three_requests requests
    × HasNoRepeat requests
    × IsExecuted counting 0 result.0 requests result.1
execute_queued_requests-IsExecuted_example =
    execute_queued_requests-IsExecuted counting 0 three_requests
