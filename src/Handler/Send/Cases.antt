-- ===== src/Handler/Send/Cases.antt =====
-- What `createSwtOperation` has checked when it returns.
use fit_fred.Common.{
  ℕ, ◌*◌, ◌%◌, ◌^◌, ◌≡◌, refl, sym, arith, Fallible, ok, some, ◌==◌, if◌then◌else◌, ◌||◌, true,
  false, Bool-cases, ◌⊎◌, inl, inr, ◌>>=◌, ◌>>◌, throw_if, or_throw, >>=-eq-ok, or_throw-eq-ok,
  throw_if-eq-ok, ok-injective,
}
use fit_fred.Common.Int.{ℤ, ltbℤ}
use fit_fred.Swt.Sequence.{SwtOperation}
use fit_fred.Platform.{Platform}
use fit_fred.Board.Defs.{Board, ParameterInfo, code_of, at, find, convert_electronic_to_raw}
use fit_fred.Board.Lookup.{at-find}
use fit_fred.Board.Codes.{InRange}
use fit_fred.Handler.Defs.{
  Error, through, board_error, outside_valid_range, read_only, no_data, regblock_unsupported,
}
use fit_fred.Handler.Send.{
  write_operation, write_command, write_value, electronic_of, read_operation, create_swt_operation,
}
use fit_fred.WinCc.Request.{Command, CommandOperation}

in_range :
    {Double : Type 0} (info : ParameterInfo Double) (v : ℤ)
    → (ltbℤ info.max_value v || ltbℤ v info.min_value) ≡ false
    → InRange info v
in_range info v h = ground arith

convert-eq-ok :
    {Double : Type 0} (board : Board Double) (info : ParameterInfo Double) (v : ℤ) (raw : ℕ)
    → find info.name board.parameters ≡ some info
    → through board_error (convert_electronic_to_raw board info.name v) ≡ ok raw
    → code_of info v * 2 ^ info.start_bit % 2 ^ 32 ≡ raw
unfolding convert_electronic_to_raw
convert-eq-ok board info v raw found h =
    let given : ◌≡◌ {A = Fallible Error ℕ} (ok (code_of info v * 2 ^ info.start_bit % 2 ^ 32))
        (ok raw) =
      rw found at h in
    ok-injective given

pub write_value-eq-ok :
    (platform : Platform) (board : Board platform.Double) (info : ParameterInfo platform.Double)
    (operation : CommandOperation) (value : platform.Double) (op : SwtOperation)
    → find info.name board.parameters ≡ some info
    → write_value platform board info operation value ≡ ok op
    → (e : ℤ) × (electronic_of platform board info operation value ≡ ok e)
      × InRange info e
      × (op ≡ write_operation platform info (code_of info e * 2 ^ info.start_bit % 2 ^ 32))
unfolding write_value
write_value-eq-ok platform board info operation value op found h =
    let (e, computed, checked) =
      >>=-eq-ok (electronic_of platform board info operation value)
        (λ e. do
          throw_if (ltbℤ info.max_value e || ltbℤ e info.min_value)
              (outside_valid_range info.name e)
          raw ← through board_error (convert_electronic_to_raw board info.name e)
          ok (write_operation platform info raw))
        h in
    let (_, inside, converted) =
      >>=-eq-ok
        (throw_if (ltbℤ info.max_value e || ltbℤ e info.min_value)
          (outside_valid_range info.name e))
        (λ _. do
          raw ← through board_error (convert_electronic_to_raw board info.name e)
          ok (write_operation platform info raw))
        checked in
    let (raw, converts, made) =
      >>=-eq-ok (through board_error (convert_electronic_to_raw board info.name e))
        (λ raw. ok (write_operation platform info raw)) converted in
    let same = convert-eq-ok board info e raw found converts in
    (e, computed, in_range info e (throw_if-eq-ok _ _ inside), rw same (sym (ok-injective made)))

pub write_command-eq-ok :
    (platform : Platform) (board : Board platform.Double) (info : ParameterInfo platform.Double)
    (command : Command platform.Double) (op : SwtOperation)
    → write_command platform board info command ≡ ok op
    → (value : platform.Double) × (command.value ≡ some value)
      × (write_value platform board info command.operation value ≡ ok op)
unfolding write_command
write_command-eq-ok platform board info command op h =
    let (_, _, given) =
      >>=-eq-ok (throw_if info.is_readonly (read_only info.name))
        (λ _. do
          value ← or_throw command.value (no_data info.name)
          write_value platform board info command.operation value)
        h in
    let (value, has, writes) =
      >>=-eq-ok (or_throw command.value (no_data info.name))
        (write_value platform board info command.operation) given in
    (value, or_throw-eq-ok _ _ has, writes)

kinds :
    (c : CommandOperation)
    → (c ≡ CommandOperation.read)
      ⊎ (c ≡ CommandOperation.write)
      ⊎ (c ≡ CommandOperation.write_electronic)
kinds CommandOperation.read = inl refl
kinds CommandOperation.write = inr (inl refl)
kinds CommandOperation.write_electronic = inr (inr refl)

-- An operation is a plain read of the parameter's register, or what a write gave.
pub create_swt_operation-cases :
    (platform : Platform) (board : Board platform.Double) (info : ParameterInfo platform.Double)
    (command : Command platform.Double) (op : SwtOperation)
    → at board command.name ≡ ok info
    → create_swt_operation platform board command ≡ ok op
    → ((command.operation ≡ CommandOperation.read) × (read_operation platform info ≡ op))
      ⊎ (write_command platform board info command ≡ ok op)
unfolding create_swt_operation
create_swt_operation-cases platform board info command op found h =
    let (_, _, chosen) =
      >>=-eq-ok
        (throw_if (if info.reg_block_size == 1 then false else true)
          (regblock_unsupported info.name))
        (λ _. elim command.operation [
          | CommandOperation.read ↦ ok (read_operation platform info)
          | CommandOperation.write ↦ write_command platform board info command
          | CommandOperation.write_electronic ↦ write_command platform board info command
        ])
        (rw found at h) in
    elim (kinds command.operation) [
      | inl q ↦
          let made : ◌≡◌ {A = Fallible Error _} (ok (read_operation platform info)) (ok op) =
            rw q at chosen in
          inl (q, ok-injective made)
      | inr (inl q) ↦ inr (rw q at chosen)
      | inr (inr q) ↦ inr (rw q at chosen)
    ]

-- A write that returns an operation.
pub create_swt_operation-eq-ok :
    (platform : Platform) (board : Board platform.Double) (info : ParameterInfo platform.Double)
    (command : Command platform.Double) (op : SwtOperation)
    → at board command.name ≡ ok info
    → ¬ (command.operation ≡ CommandOperation.read)
    → create_swt_operation platform board command ≡ ok op
    → write_command platform board info command ≡ ok op
create_swt_operation-eq-ok platform board info command op found writes h =
    elim (create_swt_operation-cases platform board info command op found h) [
      | inl (q, _) ↦ absurd (writes q)
      | inr w ↦ w
    ]

write_operation-address :
    (platform : Platform) (info : ParameterInfo platform.Double) (raw : ℕ)
    → (write_operation platform info raw).address ≡ info.base_address
unfolding write_operation
write_operation-address platform info raw = elim (Bool-cases (info.bit_length == 32)) [
  | inl q ↦ rw q
  | inr q ↦ rw q
]

-- Every operation is for the register of its parameter.
pub create_swt_operation-address :
    (platform : Platform) (board : Board platform.Double) (info : ParameterInfo platform.Double)
    (command : Command platform.Double) (op : SwtOperation)
    → at board command.name ≡ ok info
    → create_swt_operation platform board command ≡ ok op
    → op.address ≡ info.base_address
unfolding read_operation
create_swt_operation-address platform board info command op found h =
    elim (create_swt_operation-cases platform board info command op found h) [
      | inl (_, made) ↦ rw (sym made)
      | inr w ↦
          let (value, _, valued) = write_command-eq-ok platform board info command op w in
          let (there, named) = at-find board command.name info found in
          let (v, _, _, made) =
            write_value-eq-ok platform board info command.operation value op (cc) valued in
          rw made (write_operation-address platform info _)
    ]
