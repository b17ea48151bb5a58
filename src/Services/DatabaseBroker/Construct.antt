-- ===== src/Services/DatabaseBroker/Construct.antt =====
-- The constructors of ConfigurationDatabaseBroker: from the arguments of a command to SQL text.
use fit_fred.Common.{
  Fallible, ok, err, ◌>>=◌, ◌>>◌, throw_if, or_throw, Bytes, codes, [], ◌∷◌, ◌++◌, List, length,
  if◌then◌else◌, ◌||◌, not, bytes_eq,
}
use fit_fred.Common.Int.{ℤ, ltbℤ}
use fit_fred.Utils.Decimal.{signed_decimal}
use fit_fred.Platform.{Platform}
use fit_fred.Board.Defs as Board
use fit_fred.Board.Defs.{Board, BoardType, tcm, pm, does_exist, at, calculate_electronic}
use fit_fred.Services.Requests.{get_all, comma}
use fit_fred.Services.DatabaseBroker.Text.{star, with_versions}
use fit_fred.Services.DatabaseBroker.{
  Query, insert_into, update_set, select_all, delete_from, Library, Refusal, unexpected_tokens,
  invalid_board_name, invalid_parameter_name, outside_valid_range, not_a_number, board_exception,
  Command, insert_parameter, update_parameter, select_parameter, select_parameter_version,
  delete_parameter, insert_configuration, select_configuration, parameters_table,
  configurations_table, configuration_name, board_name, board_type, parameter_name, parameter_value,
  find_board,
}

-- The name that the tables have for the type of a board.
unfoldable pub type_name : BoardType → Bytes
type_name tcm = codes "TCM"
type_name pm = codes "PM"

-- An exception of the board.
abbrev pub through_board {ℓ} : {A : Type ℓ} → Fallible Board.Error A → Fallible Refusal A
through_board (ok a) = ok a
through_board (err e) = err (board_exception e)

-- A column's condition, unless any value is asked for.
unfoldable pub where_named : Bytes → Bytes → List (Bytes × Bytes)
where_named column value = if bytes_eq value (star ∷ []) then [] else (column, value) ∷ []

-- `query.str()` of a query that was made.
abbrev pub printed :
    {Double : Type 0} → Library Double → Fallible Refusal Query → Fallible Refusal Bytes
printed library (ok query) = ok (library.str query)
printed library (err e) = err e

abbrev refuse : {A : Type 0} → List Bytes → Fallible Refusal A
refuse tokens = err (unexpected_tokens (length tokens))

-- The conditions of the three names of a selection.
selection : Bytes → Bytes → Bytes → Query
unfolding where_named
selection config board param = select_all parameters_table (
    where_named configuration_name config
    ++ (where_named board_name board ++ where_named parameter_name param))

select_parameters : List Bytes → Fallible Refusal Query
unfolding selection
select_parameters (config ∷ board ∷ param ∷ []) = ok (selection config board param)
select_parameters tokens = refuse tokens

select_versions : {Double : Type 0} → Library Double → List Bytes → Fallible Refusal Bytes
unfolding selection with_versions
select_versions library (config ∷ board ∷ param ∷ start_date ∷ []) =
    with_versions start_date (library.str (selection config board param))
select_versions library tokens = refuse tokens

select_configurations : List Bytes → Fallible Refusal Query
unfolding where_named
select_configurations (config ∷ author ∷ []) = ok (
    select_all configurations_table
      (where_named configuration_name config ++ where_named (codes "AUTHOR") author))
select_configurations tokens = refuse tokens

delete_parameters : List Bytes → Fallible Refusal Query
delete_parameters (config ∷ board ∷ param ∷ []) = ok (
    delete_from parameters_table
      ((configuration_name, config) ∷ (board_name, board) ∷ (parameter_name, param) ∷ []))
delete_parameters tokens = refuse tokens

insert_configurations : List Bytes → Fallible Refusal Query
insert_configurations (config ∷ author ∷ comment ∷ []) = ok (
    insert_into configurations_table
      ((configuration_name, config) ∷ (codes "AUTHOR", author) ∷ (codes "COMMENTS", comment) ∷ []))
insert_configurations tokens = refuse tokens

module _ (platform : Platform) where
  open platform use {Double}

  -- The limits of the parameter, and the type's name.
  unfoldable pub within_limits : Board Double → Bytes → ℤ → Fallible Refusal (Bytes × ℤ)
  unfolding type_name
  within_limits board param_name electronic = do
    info ← through_board (at board param_name)
    throw_if (ltbℤ info.max_value electronic || ltbℤ electronic info.min_value) outside_valid_range
    ok (type_name board.type, electronic)

  unfoldable pub compute : Board Double → Bytes → Double → Fallible Refusal (Bytes × ℤ)
  unfolding within_limits
  compute board param_name physical = do
    electronic ← through_board (calculate_electronic platform board param_name physical)
    within_limits board param_name electronic

  unfoldable pub value_on_board :
      Library Double → Bytes → Bytes → Board Double → Fallible Refusal (Bytes × ℤ)
  unfolding compute
  value_on_board library param_name value board = do
    throw_if (not (does_exist board param_name)) (invalid_parameter_name param_name)
    physical ← or_throw (library.stod value) (not_a_number value)
    compute board param_name physical

  -- From the board's name to the name of the board's type and the electronic value, which the
  -- insertion and the update compute in the same way.
  unfoldable pub electronic_value :
      Library Double
      → List (Bytes × Board Double)
      → Bytes
      → Bytes
      → Bytes
      → Fallible Refusal (Bytes × ℤ)
  unfolding value_on_board
  electronic_value library boards board_name param_name value = do
    board ← or_throw (find_board board_name boards) (invalid_board_name board_name)
    value_on_board library param_name value board

  unfoldable pub insert_parameters :
      Library Double → List (Bytes × Board Double) → List Bytes → Fallible Refusal Query
  unfolding electronic_value
  insert_parameters library boards (config ∷ board ∷ param ∷ value ∷ []) = do
    found ← electronic_value library boards board param value
    ok (
        insert_into parameters_table (
          (configuration_name, config)
          ∷ (board_name, board)
          ∷ (board_type, found.0)
          ∷ (parameter_name, param)
          ∷ (parameter_value, signed_decimal found.1)
          ∷ []))
  insert_parameters library boards tokens = refuse tokens

  unfoldable pub update_parameters :
      Library Double → List (Bytes × Board Double) → List Bytes → Fallible Refusal Query
  unfolding electronic_value
  update_parameters library boards (config ∷ board ∷ param ∷ value ∷ []) = do
    found ← electronic_value library boards board param value
    ok (
        update_set parameters_table (parameter_value, signed_decimal found.1)
          ((configuration_name, config)
            ∷ (board_type, found.0)
            ∷ (board_name, board)
            ∷ (parameter_name, param)
            ∷ []))
  update_parameters library boards tokens = refuse tokens

  -- `construct`: the arguments of a line to the text of its query.
  unfoldable pub construct :
      Library Double → List (Bytes × Board Double) → Bytes → Command → Fallible Refusal Bytes
  unfolding insert_parameters update_parameters select_parameters select_versions
      select_configurations delete_parameters insert_configurations
  construct library boards arguments command =
      let tokens = get_all comma arguments in
      elim command [
        | insert_parameter ↦ printed library (insert_parameters library boards tokens)
        | update_parameter ↦ printed library (update_parameters library boards tokens)
        | select_parameter ↦ printed library (select_parameters tokens)
        | select_parameter_version ↦ select_versions library tokens
        | delete_parameter ↦ printed library (delete_parameters tokens)
        | insert_configuration ↦ printed library (insert_configurations tokens)
        | select_configuration ↦ printed library (select_configurations tokens)
      ]
