-- ===== src/Handler/WriteReadback.antt =====
-- A write that BoardCommunicationHandler accepts, and the read of the register behind it.
use fit_fred.Common.{ℕ, ◌*◌, ◌%◌, ◌^◌, ◌<◌, ◌≡◌, refl, ok, some, [], ==_iff}
use fit_fred.Common.Int.{ℤ}
use fit_fred.Swt.Sequence.{SwtOperation}
use fit_fred.Platform.{Platform}
use fit_fred.Board.Defs.{Board, ParameterInfo, code_of, at, find, field_of, parse_electronic}
use fit_fred.Board.Codes.{IsDescribed, InRange, value_code}
use fit_fred.Board.Lookup.{at-find}
use fit_fred.WinCc.Request.{Command, CommandOperation}
use fit_fred.Handler.Defs.{ParameterToHandle}
use fit_fred.Handler.Send.{create_swt_operation, electronic_of, write_operation, to_compare}
use fit_fred.Handler.Send.Cases.{create_swt_operation-eq-ok, write_command-eq-ok, write_value-eq-ok}
use fit_fred.Handler.Send.Readback.{Electronics, field-write_operation, to_compare-write_operation}
use fit_fred.Handler.Receive.{comparison}

-- The field of the word has the code: the value is read, and no difference is reported.
parse_electronic-field :
    {Double : Type 0} (board : Board Double) (info : ParameterInfo Double) (v : ℤ) (word : ℕ)
    → find info.name board.parameters ≡ some info
    → IsDescribed info
    → InRange info v
    → field_of info word ≡ code_of info v
    → parse_electronic board info.name word ≡ ok v
unfolding parse_electronic
parse_electronic-field board info v word found d r field =
    rw (found, field, (value_code info info.value_encoding v refl d r).1)

comparison-field :
    {Double : Type 0} (info : ParameterInfo Double) (task : ParameterToHandle) (word code : ℕ)
    → task.to_compare ≡ some code
    → field_of info word ≡ code
    → comparison info task word ≡ []
unfolding comparison field_of
comparison-field info task word code compares field =
    let same = (==_iff code code).1 refl in rw (compares, field, same)

-- A write command of which `createSwtOperation` makes an operation, for a parameter whose entry is
-- described soundly: the command has a value, its electronic value is within the parameter's limits
-- and, whatever the 32-bit register held, is what is read from the register after the operation, and
-- the comparison with the written value reports nothing.
pub write-readback :
    (platform : Platform) (electronics : Electronics) (board : Board platform.Double)
    (info : ParameterInfo platform.Double) (command : Command platform.Double) (op : SwtOperation)
    (reg : ℕ)
    → at board command.name ≡ ok info
    → IsDescribed info
    → ¬ (command.operation ≡ CommandOperation.read)
    → create_swt_operation platform board command ≡ ok op
    → reg < 2 ^ 32
    → (value : platform.Double) × (command.value ≡ some value)
      × (v : ℤ) × (electronic_of platform board info command.operation value ≡ ok v)
      × InRange info v
      × (parse_electronic board info.name (electronics.applied op reg) ≡ ok v)
      × (comparison info
            (record { name = info.name; to_compare = to_compare platform info command op })
            (electronics.applied op reg)
          ≡ [])
write-readback platform electronics board info command op reg found d writes made word =
    let (there, named) = at-find board command.name info found in
    let own : find info.name board.parameters ≡ some info = cc in
    let (value, given, valued) =
      write_command-eq-ok platform board info command op
        (create_swt_operation-eq-ok platform board info command op found writes made) in
    let (v, computed, r, is_write) =
      write_value-eq-ok platform board info command.operation value op own valued in
    let fits = (value_code info info.value_encoding v refl d r).0 in
    let field = field-write_operation platform electronics info (code_of info v) reg d fits word in
    let compares =
      to_compare-write_operation platform info command value (code_of info v) given d fits in
    let task : ParameterToHandle = record {
      name = info.name;
      to_compare =
          to_compare platform info command
            (write_operation platform info (code_of info v * 2 ^ info.start_bit % 2 ^ 32));
    } in
    (
      value,
      given,
      v,
      computed,
      r,
      rw is_write (parse_electronic-field board info v _ own d r field),
      rw is_write (comparison-field info task _ (code_of info v) compares field),
    )
