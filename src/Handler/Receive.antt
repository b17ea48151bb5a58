-- ===== src/Handler/Receive.antt =====
-- `processMessageFromALF` and `unpackReadResponse`: the values of the parameters that were read, and
-- a report for each that failed. The response is kept as its names and values, not as text.
pub mod Frame
use fit_fred.Common.{
  ℕ, ◌%◌, ◌^◌, Fallible, ok, err, ◌>>=◌, Bytes, codes, [], ◌∷◌, ◌++◌, Option, none, some, List,
  ◌==◌, if◌then◌else◌,
}
use fit_fred.Common.Int.{ℤ}
use fit_fred.Common.Map.{lookup}
use fit_fred.Utils.BitField.{get_bit_field}
use fit_fred.Alf.Frame.{SwtFrame}
use fit_fred.Alf.Parser.{Line, response_to_read, response_to_write, lines, is_success}
use fit_fred.Alf.Hex.{ParseError}
use fit_fred.Platform.{Platform}
use fit_fred.Board.Defs.{
  Board, ParameterInfo, at, parse_electronic, calculate_physical, store_value,
}
use fit_fred.Handler.Defs.{
  Error, board_error, alf_error, no_register_task, alf_communication_failed, write_failed, through,
  ParameterToHandle, Handler,
}

-- The response, the error reports, and the board whose values were stored on the way.
pub record Outcome (Double : Type 0) : Type 0 where
  pub board : Board Double
  pub response : List (Bytes × Double)
  pub report : List (Bytes × Error)

abbrev pub sequence_name : Bytes
sequence_name = codes "SEQUENCE"

-- What is said of a parameter whose field is not the one that was written.
unfoldable pub comparison :
    {Double : Type 0} → ParameterInfo Double → ParameterToHandle → ℕ → List (Bytes × Error)
comparison info task word = elim task.to_compare [
  | none ↦ []
  | some expected ↦
      if get_bit_field word (info.start_bit % 2 ^ 8) (info.bit_length % 2 ^ 8) == expected
      then []
      else (task.name, write_failed expected) ∷ []
]

module _ (platform : Platform) where
  open platform use {Double}

  -- The `try` block for one parameter.
  read_parameter :
      Board Double → ParameterToHandle → ℕ → Fallible Error (ParameterInfo Double × ℤ × Double)
  read_parameter board task word = do
    electronic ← through board_error (parse_electronic board task.name word)
    value ← through board_error (calculate_physical platform board task.name electronic)
    info ← through board_error (at board task.name)
    ok (info, electronic, value)

  unfoldable pub handle_task : ParameterToHandle → ℕ → Outcome Double → Outcome Double
  unfolding read_parameter comparison
  handle_task task word out = elim (read_parameter out.board task word) [
    | err e ↦ record out { report = out.report ++ ((task.name, e) ∷ []) }
    | ok (info, electronic, value) ↦ record {
      board = store_value out.board task.name (some value) (some electronic);
      response = out.response ++ ((task.name, value) ∷ []);
      report = out.report ++ comparison info task word;
    }
  ]

  handle_tasks : List ParameterToHandle → ℕ → Outcome Double → Outcome Double
  unfolding handle_task
  handle_tasks [] word out = out
  handle_tasks (task ∷ tasks) word out = handle_tasks tasks word (handle_task task word out)

  -- Only the answer to a plain read is unpacked; a frame of a register that was not asked for throws.
  unpack_read_response :
      List (ℕ × List ParameterToHandle)
      → SwtFrame
      → Outcome Double
      → Fallible Error (Outcome Double)
  unfolding handle_tasks lookup
  unpack_read_response tasks frame out =
      if frame.prefix == 0
      then elim (lookup frame.address tasks) [
        | none ↦ err (no_register_task frame.address)
        | some list ↦ ok (handle_tasks list frame.word out)
      ]
      else ok out

  -- The loop over the lines that the parser gives; an exception of the body, or of the parser behind
  -- the last line, ends it and is reported.
  unpack_lines :
      List (ℕ × List ParameterToHandle)
      → List Line
      → Option ParseError
      → Outcome Double
      → Outcome Double
  unfolding unpack_read_response
  unpack_lines tasks [] none out = out
  unpack_lines tasks [] (some e) out = record out {
    report = out.report ++ ((sequence_name, alf_error e) ∷ []);
  }
  unpack_lines tasks (line ∷ rest) end out = elim line.type [
    | response_to_write ↦ unpack_lines tasks rest end out
    | response_to_read frame ↦ elim (unpack_read_response tasks frame out) [
      | err e ↦ record out { report = out.report ++ ((sequence_name, e) ∷ []) }
      | ok next ↦ unpack_lines tasks rest end next
    ]
  ]

  unfoldable pub process_message_from_alf : Handler Double → Bytes → Outcome Double
  unfolding unpack_lines
  process_message_from_alf h text =
      let start : Outcome Double = record { board = h.board; response = []; report = [] } in
      if is_success text
      then unpack_lines h.register_tasks (lines text).0 (lines text).1 start
      else record start { report = (sequence_name, alf_communication_failed) ∷ [] }
