-- ===== src/Services/DatabaseBroker/Run.antt =====
-- `ConfigurationDatabaseBroker::processExecution`: the loop over the lines of a request, which ends
-- with the commit or the roll-back of what was changed.
use fit_fred.Common.{
  ℕ, ◌+◌, ok, err, Bytes, codes, [], ◌∷◌, ◌++◌, Option, none, some, List, ◌==◌, if◌then◌else◌, true,
  false, is_empty,
}
use fit_fred.Platform.{Platform}
use fit_fred.Board.Defs.{Board}
use fit_fred.Database.Columns.{Database}
use fit_fred.Services.Requests.{get_all, comma, newline}
use fit_fred.Services.DatabaseBroker.{Library, Refusal, bad_function_call, command_of}
use fit_fred.Services.DatabaseBroker.Construct.{construct}
use fit_fred.Services.DatabaseBroker.Execute.{
  Connection, Escape, reached_end, Execution, answered, refused, escaped, execute,
}

-- What is published.
pub data Publication : Type 0 where
  empty_request not_connected : Publication
  request_failed : ℕ → Refusal → Publication
  answer : Bytes → Publication

-- How the loop ends: with the text of the results, at a line that failed, or by an exception.
pub data LoopEnd : Type 0 where
  finished : Bytes → LoopEnd
  failed : ℕ → Refusal → LoopEnd
  thrown : Escape → LoopEnd

-- The command in front of the first comma, and the arguments behind it. Without a comma, `pos + 1`
-- is 0, and the whole line is taken for the arguments too.
unfoldable pub cut_command : Bytes → Option (Bytes × Bytes)
cut_command [] = none
cut_command (c ∷ s) = elim (c == comma) [
  | true ↦ some ([], s)
  | false ↦ elim (cut_command s) [
    | none ↦ none
    | some (command, arguments) ↦ some (c ∷ command, arguments)
  ]
]

unfoldable pub split_command : Bytes → Bytes × Bytes
unfolding cut_command
split_command line = elim (cut_command line) [ none ↦ (line, line) | some parts ↦ parts ]

module _ (platform : Platform) (database : Database) {W : Type 0} where
  open platform use {Double}
  open database use {Field}

  module _ (connection : Connection W Field) (library : Library Double)
      (boards : List (Bytes × Board Double)) where
    open connection use {is_connected, commit_update}

    -- One line that is not empty: its query is constructed and executed.
    unfoldable pub run_line : W → Bytes → W × Execution
    unfolding split_command
    run_line w line = elim (command_of (split_command line).0) [
      | none ↦ (w, refused bad_function_call)
      | some command ↦ elim (construct platform library boards (split_command line).1 command) [
        | err e ↦ (w, refused e)
        | ok query ↦ execute platform database connection library boards w query command
      ]
    ]

    -- The loop, with the number of lines that were executed and the results so far. An empty line is
    -- skipped and not counted.
    unfoldable pub run_lines : W → ℕ → Bytes → List Bytes → W × LoopEnd
    unfolding run_line
    run_lines w number results [] = (w, finished results)
    run_lines w number results (line ∷ lines) = elim (is_empty line) [
      | true ↦ run_lines w number results lines
      | false ↦ elim (run_line w line).1 [
        | answered text ↦ run_lines (run_line w line).0 (number + 1) (results ++ text) lines
        | refused e ↦ ((run_line w line).0, failed number e)
        | escaped e ↦ ((run_line w line).0, thrown e)
      ]
    ]

    -- What is published behind the loop, and an exception that leaves the service.
    unfoldable pub close : W × LoopEnd → W × List Publication × Option Escape
    close (w, finished results) = (
      commit_update w true,
      answer (if is_empty results then codes "Queries succeeded" else results) ∷ [],
      none,
    )
    close (w, failed number e) = (commit_update w false, request_failed number e ∷ [], none)
    close (w, thrown e) = (w, [], some e)

    -- `getNext` of an empty request throws.
    unfoldable pub run_request : W → Bytes → W × List Publication × Option Escape
    unfolding close run_lines
    run_request w [] = (w, [], some reached_end)
    run_request w (c ∷ s) = close (run_lines w 0 [] (get_all newline (c ∷ s)))

    -- `processExecution` with a request.
    unfoldable pub process_execution : W → Bytes → W × List Publication × Option Escape
    unfolding run_request
    process_execution w request =
        let (after, published, exception) = run_request w request in
        (
          after,
          (if is_empty request then empty_request ∷ [] else [])
              ++ ((if is_connected w then [] else not_connected ∷ []) ++ published),
          exception,
        )
