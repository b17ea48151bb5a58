-- ===== src/WinCc/Request.antt =====
-- `WinCCRequest` and its `Command`: one command to a line, its parts between commas.
pub mod Uniform
pub mod Build
use fit_fred.Common.{
  ℕ, ◌+◌, ◌<◌, ◌≡◌, refl, arith, Fallible, ok, err, ◌>>=◌, or_throw, Bytes, codes, [], ◌∷◌, ◌++◌,
  Option, none, some, List, if◌then◌else◌, Bool, true, false, bytes_eq, take, ◌&&◌, ◌||◌, not,
}
use fit_fred.Common.Int.{pos}
use fit_fred.Platform.{Platform}

pub data RequestError : Type 0 where
  too_few_arguments : RequestError
  too_few_write_arguments : Bytes → RequestError
  too_few_write_electronic_arguments : Bytes → RequestError
  invalid_write_argument : Bytes → Bytes → RequestError
  invalid_write_electronic_argument : Bytes → Bytes → RequestError
  invalid_operation : Bytes → Bytes → RequestError
  operation_mixing : Bytes → RequestError

pub data CommandOperation : Type 0 where
  read write write_electronic : CommandOperation

pub record Command (Double : Type 0) : Type 0 where
  pub name : Bytes
  pub operation : CommandOperation
  pub value : Option Double

-- `Command::isWrite`.
abbrev pub is_write_operation : CommandOperation → Bool
is_write_operation read = false
is_write_operation write = true
is_write_operation write_electronic = true

pub record Request (Double : Type 0) : Type 0 where
  pub commands : List (Command Double)
  pub is_write_flag : Option Bool

bool_ne : Bool → Bool → Bool
bool_ne true b = not b
bool_ne false b = b

module _ {Double : Type 0} where
  -- `WinCCRequest::isWrite`.
  abbrev pub is_write : Request Double → Bool
  is_write request = elim request.is_write_flag [ none ↦ false | some flag ↦ flag ]

  -- One round of the loop over the lines: the command's kind must be that of the commands before.
  add_command : Request Double → Command Double → Fallible RequestError (Request Double)
  unfolding bool_ne
  add_command request cmd = elim request.is_write_flag [
    | none ↦ ok (record {
      commands = request.commands ++ (cmd ∷ []);
      is_write_flag = some (is_write_operation cmd.operation);
    })
    | some flag ↦
        if bool_ne flag (is_write_operation cmd.operation)
        then err (operation_mixing cmd.name)
        else ok (record request { commands = request.commands ++ (cmd ∷ []) })
  ]

module _ (platform : Platform) where
  open platform use {Double, from_int64, read_double, read_hex, split_string}

  string_to_double : Bytes → Option Double
  string_to_double str =
      if bytes_eq (take 2 str) (codes "0x")
      then elim (read_hex str) [ none ↦ none | some h ↦ some (from_int64 (pos h)) ]
      else read_double str

  -- The operation, once the line has two parts at least; `rest` are the parts behind them.
  command_of : Bytes → Bytes → List Bytes → Fallible RequestError (Command Double)
  unfolding string_to_double
  command_of name op rest =
      if bytes_eq op (codes "READ")
      then ok (record { name = name; operation = read; value = none })
      else if bytes_eq op (codes "WRITE")
      then elim rest [
        | [] ↦ err (too_few_write_arguments name)
        | text ∷ _ ↦ elim (string_to_double text) [
          | none ↦ err (invalid_write_argument name text)
          | some v ↦ ok (record { name = name; operation = write; value = some v })
        ]
      ]
      else if bytes_eq op (codes "WRITE_ELECTRONIC")
      then elim rest [
        | [] ↦ err (too_few_write_electronic_arguments name)
        | text ∷ _ ↦ elim (string_to_double text) [
          | none ↦ err (invalid_write_electronic_argument name text)
          | some v ↦ ok (record { name = name; operation = write_electronic; value = some v })
        ]
      ]
      else err (invalid_operation name op)

  parse_arguments : List Bytes → Fallible RequestError (Command Double)
  unfolding command_of
  parse_arguments [] = err too_few_arguments
  parse_arguments (name ∷ []) = err too_few_arguments
  parse_arguments (name ∷ op ∷ rest) = command_of name op rest

  pub parse_command : Bytes → Fallible RequestError (Command Double)
  unfolding parse_arguments
  parse_command line = parse_arguments (split_string line (codes ","))

  add_lines : Request Double → List Bytes → Fallible RequestError (Request Double)
  unfolding parse_command add_command
  add_lines request [] = ok request
  add_lines request (line ∷ rest) = do
    cmd ← parse_command line
    next ← add_command request cmd
    add_lines next rest

  unfoldable pub parse_request : Bytes → Fallible RequestError (Request Double)
  unfolding add_lines
  parse_request input =
      add_lines (record { commands = []; is_write_flag = none }) (split_string input (codes "\n"))
