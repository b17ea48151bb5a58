-- ===== src/Handler/Send.antt =====
-- `processMessageFromWinCC` and what it calls: one SWT operation for each register.
pub mod Frame
pub mod Readback
pub mod Cases
pub mod Merge
pub mod Invariant
use fit_fred.Common.{
  ℕ, ◌+◌, ◌*◌, ◌/◌, ◌%◌, ◌^◌, bit_and, bit_or, ◌≡◌, refl, arith, Fallible, ok, err, ◌>>=◌, ◌>>◌,
  throw_if, or_throw, Bytes, [], ◌∷◌, ◌++◌, Option, none, some, List, ◌==◌, if◌then◌else◌, Bool,
  true, false, ◌||◌, ◌&&◌,
}
use fit_fred.Common.Int.{ℤ, ltbℤ}
use fit_fred.Common.Map.{lookup, assign}
use fit_fred.Swt.Mask.{create_and_mask}
use fit_fred.Swt.Sequence.{
  Operation, SwtOperation, add_operation, sequence, sequence_prefix, add_operations,
}
use fit_fred.Platform.{Platform}
use fit_fred.Board.Defs as Board
use fit_fred.Board.Defs.{ParameterInfo, at, convert_electronic_to_raw, calculate_electronic}
use fit_fred.WinCc.Request as WinCc
use fit_fred.WinCc.Request.{Command, Request, CommandOperation, parse_request, is_write}
use fit_fred.Handler.Defs.{
  Error, board_error, request_error, regblock_unsupported, read_only, no_data, outside_valid_range,
  different_types, unsupported_merge, through, ParameterToHandle, Handler, reset_execution_data,
}

-- `==` of operation types.
pub same_type : Operation → Operation → Bool
same_type Operation.read Operation.read = true
same_type Operation.write Operation.write = true
same_type Operation.rmw_bits Operation.rmw_bits = true
same_type Operation.rmw_sum Operation.rmw_sum = true
same_type Operation.block_read Operation.block_read = true
same_type Operation.block_read_non_increment Operation.block_read_non_increment = true
same_type _ _ = false

-- What is left of `mergeOperation` once the types are known to be equal.
pub merge_same : Operation → SwtOperation → SwtOperation → Fallible Error SwtOperation
merge_same Operation.read op to_merge = ok op
merge_same Operation.rmw_bits op to_merge =
    ok (record op {
      data0 = bit_and op.data0 to_merge.data0;
      data1 = bit_or op.data1 to_merge.data1;
    })
merge_same _ op to_merge = err unsupported_merge

unfoldable pub merge_operation : SwtOperation → SwtOperation → Fallible Error SwtOperation
unfolding same_type merge_same
merge_operation op to_merge =
    if same_type op.type to_merge.type then merge_same op.type op to_merge else err different_types

-- `m_registerTasks[address].emplace_back`.
unfoldable pub add_task :
    ℕ → ParameterToHandle → List (ℕ × List ParameterToHandle) → List (ℕ × List ParameterToHandle)
unfolding assign lookup
add_task address task tasks = elim (lookup address tasks) [
  | none ↦ assign address (task ∷ []) tasks
  | some list ↦ assign address (list ++ (task ∷ [])) tasks
]

-- Merged into the operation that is there for the register, or a new entry.
unfoldable pub add_to_operations :
    ℕ → SwtOperation → List (ℕ × SwtOperation) → Fallible Error (List (ℕ × SwtOperation))
unfolding merge_operation assign lookup
add_to_operations address op ops = elim (lookup address ops) [
  | none ↦ ok (assign address op ops)
  | some there ↦ (do merged ← merge_operation there op; ok (assign address merged ops))
]

module _ (platform : Platform) where
  open platform use {Double, to_int64, walk}

  -- The value that goes to the electronics.
  pub electronic_of :
      Board.Board Double → ParameterInfo Double → CommandOperation → Double → Fallible Error ℤ
  electronic_of board info CommandOperation.write_electronic value = ok (to_int64 value)
  electronic_of board info CommandOperation.write value =
      through board_error (calculate_electronic platform board info.name value)
  electronic_of board info CommandOperation.read value =
      through board_error (calculate_electronic platform board info.name value)

  -- The operation of a write, from the raw word on.
  pub write_operation : ParameterInfo Double → ℕ → SwtOperation
  write_operation info raw =
      if info.bit_length == 32
      then record {
        type = Operation.write;
        address = info.base_address;
        data0 = raw;
        data1 = 0;
        expect_response = false;
      }
      else record {
        type = Operation.rmw_bits;
        address = info.base_address;
        data0 = create_and_mask info.start_bit info.bit_length;
        data1 = raw;
        expect_response = true;
      }

  pub write_value :
      Board.Board Double
      → ParameterInfo Double
      → CommandOperation
      → Double
      → Fallible Error SwtOperation
  unfolding electronic_of write_operation
  write_value board info operation value = do
    electronic ← electronic_of board info operation value
    throw_if (ltbℤ info.max_value electronic || ltbℤ electronic info.min_value)
        (outside_valid_range info.name electronic)
    raw ← through board_error (convert_electronic_to_raw board info.name electronic)
    ok (write_operation info raw)

  pub write_command :
      Board.Board Double → ParameterInfo Double → Command Double → Fallible Error SwtOperation
  unfolding write_value
  write_command board info command = do
    throw_if info.is_readonly (read_only info.name)
    value ← or_throw command.value (no_data info.name)
    write_value board info command.operation value

  pub read_operation : ParameterInfo Double → SwtOperation
  read_operation info = record {
    type = Operation.read;
    address = info.base_address;
    data0 = 0;
    data1 = 0;
    expect_response = true;
  }

  unfoldable pub create_swt_operation :
      Board.Board Double → Command Double → Fallible Error SwtOperation
  unfolding write_command read_operation
  create_swt_operation board command = do
    info ← through board_error (at board command.name)
    throw_if (if info.reg_block_size == 1 then false else true) (regblock_unsupported info.name)
    elim command.operation [
      | CommandOperation.read ↦ ok (read_operation info)
      | CommandOperation.write ↦ write_command board info command
      | CommandOperation.write_electronic ↦ write_command board info command
    ]

  -- What the value that is read back is compared with.
  unfoldable pub to_compare : ParameterInfo Double → Command Double → SwtOperation → Option ℕ
  to_compare info command op = elim command.value [
    | none ↦ none
    | some _ ↦ elim op.type [
      | Operation.write ↦ some op.data0
      | _ ↦ some (op.data1 / 2 ^ info.start_bit)
    ]
  ]

  -- One round of the loop over the commands.
  pub process_command : Handler Double → Command Double → Fallible Error (Handler Double)
  unfolding create_swt_operation to_compare add_task add_to_operations
  process_command h command = do
    op ← create_swt_operation h.board command
    info ← through board_error (at h.board command.name)
    let task : ParameterToHandle = record {
      name = info.name;
      to_compare = to_compare info command op;
    }
    ops ← add_to_operations info.base_address op h.operations
    ok (record h {
      register_tasks = add_task info.base_address task h.register_tasks;
      operations = ops;
    })

  pub process_commands : Handler Double → List (Command Double) → Fallible Error (Handler Double)
  unfolding process_command
  process_commands h [] = ok h
  process_commands h (command ∷ commands) = do
    next ← process_command h command
    process_commands next commands

  -- The operations of the sequence: all that were collected, and after writes a read of each
  -- register.
  read_back : List (ℕ × SwtOperation) → List SwtOperation
  read_back [] = []
  read_back ((address, op) ∷ ops) =
      record {
        type = Operation.read;
        address = address;
        data0 = 0;
        data1 = 0;
        expect_response = true;
      }
      ∷ read_back ops

  collected : List (ℕ × SwtOperation) → List SwtOperation
  collected [] = []
  collected ((address, op) ∷ ops) = op ∷ collected ops

  pub sent_operations : List (ℕ × SwtOperation) → Bool → List SwtOperation
  unfolding collected read_back
  sent_operations ops reads_back =
      collected (walk ops) ++ (if reads_back then read_back (walk ops) else [])

  -- The request is parsed and all its commands are taken, or an exception ends the `try` block.
  pub try_request : Handler Double → Bytes → Fallible Error (Handler Double × Bool)
  unfolding process_commands
  try_request h mess = do
    request ← through request_error (parse_request platform mess)
    next ← process_commands h request.commands
    ok (next, is_write request)

  -- An exception leaves no task and no operation behind.
  unfoldable pub process_message_from_wincc :
      Handler Double → Bytes → Bool → Handler Double × Fallible Error Bytes
  unfolding try_request sent_operations
  process_message_from_wincc h mess read_after_write =
      elim (try_request (reset_execution_data h) mess) [
        | err e ↦ (reset_execution_data h, err e)
        | ok (next, writes) ↦
            (next, ok (sequence (sent_operations next.operations (writes && read_after_write))))
      ]
