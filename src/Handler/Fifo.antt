-- ===== src/Handler/Fifo.antt =====
-- `createReadFifoRequest` and `parseFifo`: a block of words behind one register, row by row.
pub mod Rows
pub mod Front
use fit_fred.Common.{
  ℕ, zero, suc, ◌+◌, ◌*◌, ◌≤◌, ◌<◌, ◌≡◌, refl, arith, Fallible, ok, err, ◌>>=◌, ◌>>◌, throw_if,
  Bytes, codes, [], ◌∷◌, ◌++◌, Option, none, some, List, length, ◌==◌, if◌then◌else◌, Bool, true,
  false,
}
use fit_fred.Common.Int.{ℤ, to_u32}
use fit_fred.Swt.Sequence.{Operation, SwtOperation, sequence}
use fit_fred.Alf.Frame.{SwtFrame}
use fit_fred.Alf.Parser.{Line, response_to_read, response_to_write, lines, is_success}
use fit_fred.Alf.Hex.{ParseError}
use fit_fred.Board.Defs.{Board, ParameterInfo, at, parse_electronic}
use fit_fred.Handler.Defs.{
  Error, board_error, alf_error, alf_communication_failed, fifo_interleaved, fifo_after_write,
  through, ParameterToHandle, Handler, reset_execution_data,
}

-- The rows, or the report of a failed communication.
pub data FifoResponse : Type 0 where
  fifo_content : List (List ℕ) → FifoResponse
  fifo_error : Error → FifoResponse

-- The rows that are full, and the last one.
abbrev pub RowList : Type 0
RowList = List (List ℕ) × List ℕ

-- A word goes to the last row, or to a new one if that has `block_size` words.
unfoldable pub push_word : ℕ → RowList → ℕ → RowList
push_word block_size (full, last) word =
    if length last == block_size
    then (full ++ (last ∷ []), word ∷ [])
    else (full, last ++ (word ∷ []))

repeat : ℕ → SwtOperation → List SwtOperation
repeat zero op = []
repeat (suc n) op = op ∷ repeat n op

-- The only task, of a read.
fifo_task : List (ℕ × List ParameterToHandle) → Fallible Error ParameterToHandle
fifo_task ((address, task ∷ []) ∷ []) = elim task.to_compare [
  | none ↦ ok task
  | some _ ↦ err fifo_after_write
]
fifo_task _ = err fifo_interleaved

module _ {Double : Type 0} where
  unfoldable pub create_read_fifo_request :
      Handler Double → Bytes → ℕ → Handler Double × Fallible Error Bytes
  unfolding repeat
  create_read_fifo_request h fifo_name words_to_read = elim (at h.board fifo_name) [
    | err e ↦ (reset_execution_data h, err (board_error e))
    | ok info ↦ (
      record h {
        register_tasks =
            (info.base_address, record { name = fifo_name; to_compare = none } ∷ []) ∷ [];
        operations = [];
      },
      ok (
          sequence (
            repeat words_to_read (record {
              type = Operation.read;
              address = info.base_address;
              data0 = 0;
              data1 = 0;
              expect_response = true;
            }))),
    )
  ]

  pub collect_words :
      Board Double → ParameterInfo Double → List Line → RowList → Fallible Error RowList
  unfolding push_word
  collect_words board info [] rows = ok rows
  collect_words board info (line ∷ rest) rows = elim line.type [
    | response_to_write ↦ collect_words board info rest rows
    | response_to_read frame ↦ (do
      value ← through board_error (parse_electronic board info.name frame.word)
      collect_words board info rest (push_word info.reg_block_size rows (to_u32 value)))
  ]

  -- The loop's rows, or the exception that ended it.
  pub fifo_rows : Board Double → ParameterInfo Double → Bytes → Fallible Error RowList
  unfolding collect_words
  fifo_rows board info text = do
    rows ← collect_words board info (lines text).0 ([], [])
    elim (lines text).1 [ none ↦ ok rows | some e ↦ err (alf_error e) ]

  unfoldable pub parse_fifo : Handler Double → Bytes → Fallible Error FifoResponse
  unfolding fifo_task fifo_rows
  parse_fifo h text = do
    task ← fifo_task h.register_tasks
    info ← through board_error (at h.board task.name)
    if is_success text
        then (do rows ← fifo_rows h.board info text; ok (fifo_content (rows.0 ++ (rows.1 ∷ []))))
        else ok (fifo_error alf_communication_failed)
