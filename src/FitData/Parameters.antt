-- ===== src/FitData/Parameters.antt =====
-- `FitData::parseParameter`, the template board and the boards that are made of it.
pub mod Described
pub mod Template
use fit_fred.Common.{
  ℕ, ◌+◌, ◌-◌, ◌%◌, ◌^◌, Fallible, ok, ◌>>=◌, Bytes, codes, [], ◌∷◌, ◌++◌, Option, none, some, List,
  if◌then◌else◌, Bool, true, false, ltb,
}
use fit_fred.Common.Int.{ℤ, pos, negsuc}
use fit_fred.Board.Defs.{
  ValueEncoding, unsigned, signed, RefreshType, sync, cnt, not_refreshed, ParameterInfo, Board,
  BoardType, tcm, pm, Variable, emplace,
}
use fit_fred.Database.Columns.{Database, DatabaseError}
use fit_fred.Database.Rows.{ParameterRow, parameter_row}

-- `1ull << n`; a shift by 64 or more, which C++ does not define, is 0 here.
abbrev pub shl_u64 : ℕ → ℕ
shl_u64 n = if ltb n 64 then 2 ^ n else 0

-- A `uint64_t` as it is assigned to an `int64_t`, and the negation and the decrement of one.
abbrev pub to_int64 : ℕ → ℤ
to_int64 w = if ltb w (2 ^ 63) then pos w else negsuc (2 ^ 64 - 1 - w)

abbrev pub neg_u64 : ℕ → ℕ
neg_u64 w = (2 ^ 64 - w) % 2 ^ 64

abbrev pub pred_u64 : ℕ → ℕ
pred_u64 w = (w + (2 ^ 64 - 1)) % 2 ^ 64

-- `bitLength - 1` of a `uint32_t`.
abbrev pub pred_u32 : ℕ → ℕ
pred_u32 w = (w + (2 ^ 32 - 1)) % 2 ^ 32

-- `row.endBit - row.startBit + 1`.
unfoldable pub bit_length_of : ParameterRow → ℕ
bit_length_of row = (row.end_bit + 2 ^ 32 - row.start_bit + 1) % 2 ^ 32

abbrev pub encoding_of : ParameterRow → ValueEncoding
encoding_of row = if row.is_signed then signed else unsigned

-- The limits of a parameter whose row has none.
unfoldable pub default_min : ValueEncoding → ℕ → ℤ
default_min unsigned length = pos 0
default_min signed length = to_int64 (neg_u64 (shl_u64 (pred_u32 length)))

unfoldable pub default_max : ValueEncoding → ℕ → ℤ
default_max unsigned length = to_int64 (pred_u64 (shl_u64 length))
default_max signed length = to_int64 (pred_u64 (shl_u64 (pred_u32 length)))

abbrev pub or_default : Option ℤ → ℤ → ℤ
or_default none value = value
or_default (some limit) value = limit

-- Any refresh type at all is `SYNC`.
abbrev pub refresh_of : Option Bytes → RefreshType
refresh_of none = not_refreshed
refresh_of (some _) = sync

module _ {Double : Type 0} where
  unfoldable pub parse_parameter : ParameterRow → ParameterInfo Double
  unfolding bit_length_of default_min default_max
  parse_parameter row = record {
    name = row.name;
    base_address = row.base_address;
    start_bit = row.start_bit;
    bit_length = bit_length_of row;
    reg_block_size = row.reg_block_size;
    value_encoding = encoding_of row;
    min_value = or_default row.min_value (default_min (encoding_of row) (bit_length_of row));
    max_value = or_default row.max_value (default_max (encoding_of row) (bit_length_of row));
    electronic_to_physic = row.eq_electronic_to_physic;
    physic_to_electronic = row.eq_physic_to_electronic;
    is_fifo = row.is_fifo;
    is_readonly = row.is_read_only;
    refresh_type = refresh_of row.refresh_type;
    physical_value = none;
    electronic_value = none;
  }

  -- `emplace` of each parameter of a list.
  unfoldable pub emplace_all : Board Double → List (ParameterInfo Double) → Board Double
  unfolding emplace
  emplace_all board [] = board
  emplace_all board (p ∷ ps) = emplace_all (emplace board p).0 ps

  empty_board : Board Double
  empty_board = record {
    name = codes "TemplateBoard";
    type = pm;
    address = 0;
    parent = none;
    environment = none;
    parameters = [];
  }

  -- `constructBoardFromTemplate`. What the constructor reads off the name is an argument here, and
  -- the variables are those of the shared object.
  unfoldable pub construct_board :
      Bytes
      → BoardType
      → ℕ
      → Option (List (Variable Double))
      → Board Double
      → Option (Board Double)
      → Board Double
  unfolding emplace_all
  construct_board name type address environment template main =
      emplace_all
        (record {
          name = name;
          type = type;
          address = address;
          parent = elim main [ none ↦ none | some board ↦ some board.parameters ];
          environment = environment;
          parameters = [];
        })
        template.parameters

  -- `constructStatusParametersList`.
  unfoldable pub status_parameters : List (ParameterInfo Double) → List Bytes
  status_parameters [] = []
  status_parameters (p ∷ ps) =
      let rest = status_parameters ps in
      elim p.refresh_type [ cnt ↦ rest | sync ↦ p.name ∷ rest | not_refreshed ↦ rest ]

  -- `parseTemplateBoard`.
  parse_rows :
      (database : Database)
      → Board Double
      → List (List (Option database.Field))
      → Fallible DatabaseError (Board Double)
  unfolding emplace parse_parameter parameter_row
  parse_rows database board [] = ok board
  parse_rows database board (fields ∷ rows) = do
    row ← parameter_row database fields
    parse_rows database (emplace board (parse_parameter row)).0 rows

  unfoldable pub parse_template_board :
      (database : Database)
      → List (List (Option database.Field))
      → Fallible DatabaseError (Board Double)
  unfolding parse_rows empty_board
  parse_template_board database rows = parse_rows database empty_board rows
