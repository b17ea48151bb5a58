-- ===== src/Database/Rows.antt =====
-- mapi/src/database/DatabaseViews.cpp: the rows of the tables.
use fit_fred.Common.{ℕ, Fallible, ok, ◌>>=◌, Bytes, codes, [], Option, none, some, List, Bool}
use fit_fred.Common.Int.{ℤ, to_u32, to_int32}
use fit_fred.Board.Defs.{Equation}
use fit_fred.Database.Columns.{
  Database, DatabaseError, Column, parse, parse_nullable, field_at, boolean_parser, hex_parser,
  integer_parser, unsigned_parser, string_parser,
}
use fit_fred.Database.Equations.{parse_equation}

unfoldable pub column : {A : Type 0} → ℕ → Bytes → Column A
column idx name = record { idx = idx; name = name; default_value = none }

abbrev empty_equation : Equation
empty_equation = record { equation = []; variables = [] }

-- `tables::Parameters::Row`.
pub record ParameterRow : Type 0 where
  pub board_type : Bytes
  pub name : Bytes
  pub base_address : ℕ
  pub start_bit : ℕ
  pub end_bit : ℕ
  pub reg_block_size : ℕ
  pub min_value : Option ℤ
  pub max_value : Option ℤ
  pub is_signed : Bool
  pub is_fifo : Bool
  pub is_read_only : Bool
  pub eq_electronic_to_physic : Equation
  pub eq_physic_to_electronic : Equation
  pub refresh_type : Option Bytes

-- `tables::ConnectedDevices::Row`.
pub record DeviceRow : Type 0 where
  pub board_name : Bytes
  pub board_type : Bytes
  pub is_connected : Bool

-- `tables::Environment::Row`.
pub record EnvironmentRow : Type 0 where
  pub name : Bytes
  pub equation : Equation

-- `views::Histogram::Row`.
pub record HistogramRow : Type 0 where
  pub histogram_name : Bytes
  pub base_address : ℕ
  pub reg_block_size : ℕ
  pub start_bin : ℤ
  pub bins_per_register : ℕ
  pub direction : Bytes

-- `views::ConfigurationValue::Row`.
pub record ConfigurationValue : Type 0 where
  pub name : Bytes
  pub value : ℤ

module _ (database : Database) where
  open database use {Field, get_string}

  abbrev Row : Type 0
  Row = List (Option Field)

  -- The field of a column, by the parser of the column's type.
  unfoldable pub read_column :
      {A : Type 0} → Column A → (Field → Fallible DatabaseError A) → Row → Fallible DatabaseError A
  unfolding parse field_at
  read_column c parser row = do field ← field_at row c.idx; parse c parser field

  read_nullable :
      {A : Type 0}
      → Column A
      → (Field → Fallible DatabaseError A)
      → Row
      → Fallible DatabaseError (Option A)
  unfolding parse_nullable field_at
  read_nullable c parser row = do field ← field_at row c.idx; parse_nullable c parser field

  equation_parser : Field → Fallible DatabaseError Equation
  unfolding parse_equation
  equation_parser field = parse_equation (get_string field)

  -- `isReadOnly` and `isFifo`, which are both read at the index of the column `IsReadOnly`.
  unfoldable pub access_flags : Row → Fallible DatabaseError (Bool × Bool)
  unfolding read_column column
  access_flags row = do
    is_read_only ←
        read_column (record (column 8 (codes "IS_SIGNED")) { idx = 10 }) (boolean_parser database)
          row
    is_fifo ←
        read_column (record (column 9 (codes "IS_FIFO")) { idx = 10 }) (boolean_parser database) row
    ok (is_read_only, is_fifo)

  unfoldable pub parameter_row : Row → Fallible DatabaseError ParameterRow
  unfolding read_column read_nullable equation_parser column access_flags
  parameter_row row = do
    board_type ← read_column (column 0 (codes "BOARD_TYPE")) (string_parser database) row
    name ← read_column (column 1 (codes "PARAM_NAME")) (string_parser database) row
    base_address ← read_column (column 2 (codes "BASE_ADDRESS")) (hex_parser database) row
    start_bit ← read_column (column 3 (codes "START_BIT")) (unsigned_parser database) row
    end_bit ← read_column (column 4 (codes "END_BIT")) (unsigned_parser database) row
    reg_block_size ← read_column (column 5 (codes "REG_BLOCK_SIZE")) (unsigned_parser database) row
    min_value ← read_nullable (column 6 (codes "MIN_VALUE")) (integer_parser database) row
    max_value ← read_nullable (column 7 (codes "MAX_VALUE")) (integer_parser database) row
    is_signed ← read_column (column 8 (codes "IS_SIGNED")) (boolean_parser database) row
    flags ← access_flags row
    to_physic ←
        read_column
          (record {
            idx = 11;
            name = codes "EQ_ELECTRONIC_TO_PHYSIC";
            default_value = some empty_equation;
          })
          equation_parser row
    to_electronic ←
        read_column
          (record {
            idx = 12;
            name = codes "EQ_PHYSIC_TO_ELECTRONIC";
            default_value = some empty_equation;
          })
          equation_parser row
    refresh_type ←
        read_nullable
          (record { idx = 13; name = codes "REFRESH_TYPE"; default_value = some (codes "NOT") })
          (string_parser database) row
    ok (record {
      board_type = board_type;
      name = name;
      base_address = base_address;
      start_bit = start_bit;
      end_bit = end_bit;
      reg_block_size = reg_block_size;
      min_value = min_value;
      max_value = max_value;
      is_signed = is_signed;
      is_fifo = flags.1;
      is_read_only = flags.0;
      eq_electronic_to_physic = to_physic;
      eq_physic_to_electronic = to_electronic;
      refresh_type = refresh_type;
    })

  unfoldable pub device_row : Row → Fallible DatabaseError DeviceRow
  unfolding read_column column
  device_row row = do
    board_name ← read_column (column 0 (codes "BOARD_NAME")) (string_parser database) row
    board_type ← read_column (column 1 (codes "BOARD_TYPE")) (string_parser database) row
    is_connected ← read_column (column 2 (codes "IS_CONNECTED")) (boolean_parser database) row
    ok (record { board_name = board_name; board_type = board_type; is_connected = is_connected })

  unfoldable pub environment_row : Row → Fallible DatabaseError EnvironmentRow
  unfolding read_column equation_parser column
  environment_row row = do
    name ← read_column (column 0 (codes "NAME")) (string_parser database) row
    equation ← read_column (column 1 (codes "EQUATION")) equation_parser row
    ok (record { name = name; equation = equation })

  unfoldable pub histogram_row : Row → Fallible DatabaseError HistogramRow
  unfolding read_column column
  histogram_row row = do
    name ← read_column (column 0 []) (string_parser database) row
    base_address ← read_column (column 1 []) (hex_parser database) row
    reg_block_size ← read_column (column 2 []) (unsigned_parser database) row
    start_bin ← read_column (column 3 []) (integer_parser database) row
    bins_per_register ← read_column (column 4 []) (unsigned_parser database) row
    direction ← read_column (column 5 []) (string_parser database) row
    ok (record {
      histogram_name = name;
      base_address = base_address;
      reg_block_size = reg_block_size;
      start_bin = to_int32 (to_u32 start_bin);
      bins_per_register = bins_per_register;
      direction = direction;
    })

  unfoldable pub configuration_value : Row → Fallible DatabaseError ConfigurationValue
  unfolding read_column column
  configuration_value row = do
    name ← read_column (column 0 []) (string_parser database) row
    value ← read_column (column 1 []) (integer_parser database) row
    ok (record { name = name; value = value })
