-- ===== src/Services/DatabaseBroker.antt =====
-- mapi/src/services/configurations/ConfigurationDatabaseBroker.cpp: the requests that change and show
-- the stored configurations. Construct makes the SQL text of a line, Execute runs it, and Run is the
-- loop over the lines of a request.
pub mod Text
pub mod Construct
pub mod Execute
pub mod Run
pub mod Limits
pub mod Transaction
use fit_fred.Common.{ℕ, Bytes, codes, Option, none, some, List, [], ◌∷◌, if◌then◌else◌, bytes_eq}
use fit_fred.Common.Int.{ℤ}
use fit_fred.Board.Defs as Board
use fit_fred.Board.Defs.{Board}

-- What a query asks of the SQL builder: the table, and columns with their values. Conditions say that
-- a column has a value.
pub data Query : Type 0 where
  insert_into : Bytes → List (Bytes × Bytes) → Query
  update_set : Bytes → Bytes × Bytes → List (Bytes × Bytes) → Query
  select_all : Bytes → List (Bytes × Bytes) → Query
  delete_from : Bytes → List (Bytes × Bytes) → Query

-- The library: `str` of a query of the SQL builder, `std::stod`, which throws on what is no number,
-- and a `double` with three digits behind the point.
pub record Library (Double : Type 0) : Type 0 where
  pub str : Query → Bytes
  pub stod : Bytes → Option Double
  pub print_fixed : Double → Bytes

-- What is said of a line that is refused. `bad_function_call` is thrown where no constructor is
-- known for the command, `out_of_range` by a position behind the end of a text.
pub data Refusal : Type 0 where
  unexpected_tokens : ℕ → Refusal
  invalid_board_name : Bytes → Refusal
  invalid_parameter_name : Bytes → Refusal
  outside_valid_range : Refusal
  not_a_number : Bytes → Refusal
  board_exception : Board.Error → Refusal
  bad_function_call : Refusal
  out_of_range : Refusal
  select_failed : Bytes → Refusal
  update_failed : Bytes → Refusal

pub data Command : Type 0 where
  insert_parameter update_parameter select_parameter select_parameter_version : Command
  delete_parameter insert_configuration select_configuration : Command

-- The keys of `m_constructors` and `m_executors`.
unfoldable pub command_of : Bytes → Option Command
command_of name =
    if bytes_eq name (codes "INSERT CONFIGURATION_PARAMETERS")
    then some insert_parameter
    else if bytes_eq name (codes "UPDATE CONFIGURATION_PARAMETERS")
    then some update_parameter
    else if bytes_eq name (codes "SELECT CONFIGURATION_PARAMETERS")
    then some select_parameter
    else if bytes_eq name (codes "SELECT VERSIONS CONFIGURATION_PARAMETERS")
    then some select_parameter_version
    else if bytes_eq name (codes "DELETE CONFIGURATION_PARAMETERS")
    then some delete_parameter
    else if bytes_eq name (codes "INSERT CONFIGURATIONS")
    then some insert_configuration
    else if bytes_eq name (codes "SELECT CONFIGURATIONS")
    then some select_configuration
    else none

-- `tables::ConfigurationParameters` and `tables::Configurations`.
abbrev pub parameters_table : Bytes
parameters_table = codes "CONFIGURATION_PARAMETERS"

abbrev pub configurations_table : Bytes
configurations_table = codes "CONFIGURATIONS"

abbrev pub configuration_name : Bytes
configuration_name = codes "CONFIGURATION_NAME"

abbrev pub board_name : Bytes
board_name = codes "BOARD_NAME"

abbrev pub board_type : Bytes
board_type = codes "BOARD_TYPE"

abbrev pub parameter_name : Bytes
parameter_name = codes "PARAMETER_NAME"

abbrev pub parameter_value : Bytes
parameter_value = codes "PARAMETER_ELECTRONIC_VALUE"

-- `m_Boards.find`.
unfoldable pub find_board :
    {Double : Type 0} → Bytes → List (Bytes × Board Double) → Option (Board Double)
find_board name [] = none
find_board name ((key, board) ∷ boards) =
    if bytes_eq key name then some board else find_board name boards
