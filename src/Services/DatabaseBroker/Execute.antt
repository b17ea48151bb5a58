-- ===== src/Services/DatabaseBroker/Execute.antt =====
-- The executors of ConfigurationDatabaseBroker: a query is run, and its rows become text. The
-- database is `DatabaseInterface` of the FRED core, whose calls may change a world.
use fit_fred.Common.{
  ℕ, Fallible, ok, err, ◌>>=◌, Bytes, codes, [], ◌∷◌, ◌++◌, Option, none, some, List, if◌then◌else◌,
  Bool, true, false, is_empty,
}
use fit_fred.Common.Int.{ℤ}
use fit_fred.Platform.{Platform}
use fit_fred.Board.Defs as Board
use fit_fred.Board.Defs.{Board, calculate_physical}
use fit_fred.Database.Columns.{Database, DatabaseError, field_at}
use fit_fred.Services.DatabaseBroker.{
  Library, Refusal, select_failed, update_failed, Command, insert_parameter, update_parameter,
  select_parameter, select_parameter_version, delete_parameter, insert_configuration,
  select_configuration, find_board,
}

-- `DatabaseInterface`: a query with its status and rows, an update with its error message.
pub record Connection (W Field : Type 0) : Type 0 where
  pub is_connected : W → Bool
  pub execute_query : W → Bytes → W × Bool × List (List (Option Field))
  pub execute_update : W → Bytes → W × Bytes
  pub commit_update : W → Bool → W

-- What leaves `processExecution`: nothing catches an exception of an executor, or of the splitter of
-- the lines. A board that is not known, a NULL field and a row that is too short are not defined in
-- C++.
pub data Escape : Type 0 where
  no_such_board : Bytes → Escape
  null_field : ℕ → Escape
  short_row : DatabaseError → Escape
  escaped_board : Board.Error → Escape
  reached_end : Escape

-- How the execution of one line ends. The text is empty for an update.
pub data Execution : Type 0 where
  answered : Bytes → Execution
  refused : Refusal → Execution
  escaped : Escape → Execution

module _ {F : Type 0} where
  -- `row[idx]`, and `row[idx]->`.
  nullable_field : List (Option F) → ℕ → Fallible Escape (Option F)
  unfolding field_at
  nullable_field row idx = elim (field_at row idx) [
    | ok field ↦ ok field
    | err e ↦ err (short_row e)
  ]

  field : List (Option F) → ℕ → Fallible Escape F
  unfolding nullable_field
  field row idx = do
    found ← nullable_field row idx
    elim found [ none ↦ err (null_field idx) | some f ↦ ok f ]

-- What a query without success says, and otherwise the text of its rows.
unfoldable pub read_rows :
    {F : Type 0}
    → (List (Option F) → Fallible Escape Bytes)
    → List (List (Option F))
    → Fallible Escape Bytes
read_rows print [] = ok []
read_rows print (row ∷ rows) = do line ← print row; rest ← read_rows print rows; ok (line ++ rest)

abbrev pub execution_of : Bool → Bytes → Fallible Escape Bytes → Execution
execution_of false query rows = refused (select_failed query)
execution_of true query (ok text) = answered text
execution_of true query (err e) = escaped e

abbrev comma_behind : Bytes → Bytes
comma_behind text = text ++ codes ","

module _ (platform : Platform) (database : Database) where
  open platform use {Double}
  open database use {Field, get_string, get_double_as_int64}

  -- `toPhysical`.
  to_physical :
      Library Double → List (Bytes × Board Double) → Bytes → Bytes → ℤ → Fallible Escape Bytes
  to_physical library boards board_name parameter_name electronic =
      elim (find_board board_name boards) [
        | none ↦ err (no_such_board board_name)
        | some board ↦ elim (calculate_physical platform board parameter_name electronic) [
          | err e ↦ err (escaped_board e)
          | ok physical ↦ ok (library.print_fixed physical)
        ]
      ]

  -- The part of a row that both selections of parameters print.
  unfoldable pub parameter_text :
      Library Double → List (Bytes × Board Double) → List (Option Field) → Fallible Escape Bytes
  unfolding field to_physical
  parameter_text library boards row = do
    board ← field row 1
    parameter ← field row 3
    electronic ← field row 4
    value ←
        to_physical library boards (get_string board) (get_string parameter)
          (get_double_as_int64 electronic)
    config ← field row 0
    ok (
        comma_behind (get_string config)
        ++ (comma_behind (get_string board) ++ (comma_behind (get_string parameter) ++ value)))

  unfoldable pub parameter_line :
      Library Double → List (Bytes × Board Double) → List (Option Field) → Fallible Escape Bytes
  unfolding parameter_text
  parameter_line library boards row = do
    text ← parameter_text library boards row
    ok (text ++ codes "\n")

  -- A column of the versions, which may be NULL.
  version_text : List (Option Field) → ℕ → Fallible Escape Bytes
  unfolding nullable_field
  version_text row idx = do
    found ← nullable_field row idx
    ok (elim found [ none ↦ codes "NULL," | some f ↦ comma_behind (get_string f) ])

  unfoldable pub version_line :
      Library Double → List (Bytes × Board Double) → List (Option Field) → Fallible Escape Bytes
  unfolding parameter_text version_text
  version_line library boards row = do
    text ← parameter_text library boards row
    start ← version_text row 5
    end ← version_text row 6
    operation ← version_text row 7
    ok (comma_behind text ++ (start ++ (end ++ (operation ++ codes "\n"))))

  unfoldable pub configuration_line : List (Option Field) → Fallible Escape Bytes
  unfolding field nullable_field
  configuration_line row = do
    config ← field row 0
    author ← field row 1
    date ← field row 2
    comment ← nullable_field row 3
    let last : Bytes = elim comment [ none ↦ codes "NULL" | some f ↦ get_string f ]
    ok (
        comma_behind (get_string config)
        ++ (comma_behind (get_string author)
            ++ (comma_behind (get_string date) ++ (last ++ codes "\n"))))

  module _ {W : Type 0} (connection : Connection W Field) where
    open connection use {execute_query, execute_update}

    run_select : (List (Option Field) → Fallible Escape Bytes) → W → Bytes → W × Execution
    run_select print w query =
        let (after, status, rows) = execute_query w query in
        (after, execution_of status query (read_rows print rows))

    run_update : W → Bytes → W × Execution
    run_update w query =
        let (after, message) = execute_update w query in
        (after, if is_empty message then answered [] else refused (update_failed message))

    -- `execute`.
    unfoldable pub execute :
        Library Double → List (Bytes × Board Double) → W → Bytes → Command → W × Execution
    unfolding run_select run_update
    execute library boards w query command = elim command [
      | insert_parameter ↦ run_update w query
      | update_parameter ↦ run_update w query
      | select_parameter ↦ run_select (parameter_line library boards) w query
      | select_parameter_version ↦ run_select (version_line library boards) w query
      | delete_parameter ↦ run_update w query
      | insert_configuration ↦ run_update w query
      | select_configuration ↦ run_select configuration_line w query
    ]
