-- ===== src/Database/Columns.antt =====
-- database/Columns: how the fields of a row are read. A field is a `MultiBase` of the FRED core, or
-- nothing where the database has NULL.
use fit_fred.Common.{
  ℕ, zero, suc, Fallible, ok, err, ◌>>=◌, Bytes, codes, [], ◌∷◌, Option, none, some, List, Bool,
  bytes_eq,
}
use fit_fred.Common.Int.{ℤ}

-- `MultiBase`: its text, its `double` as it is assigned to an `int64_t` and to a `uint32_t`, and
-- `ss >> std::hex >> word` of a text.
pub record Database : Type 1 where
  pub Field : Type 0
  pub get_string : Field → Bytes
  pub get_integer : Field → ℤ
  pub get_unsigned : Field → ℕ
  pub get_double_as_int64 : Field → ℤ
  pub read_hex_word : Bytes → ℕ

pub data DatabaseError : Type 0 where
  must_not_be_null : Bytes → DatabaseError
  missing_brace : DatabaseError
  no_such_column : ℕ → DatabaseError

-- `Column`, but for its parser, which is an argument of `parse`.
pub record Column (A : Type 0) : Type 0 where
  pub idx : ℕ
  pub name : Bytes
  pub default_value : Option A

module _ {A F : Type 0} where
  -- A field that is NULL is the default value, if there is one.
  unfoldable pub parse :
      Column A → (F → Fallible DatabaseError A) → Option F → Fallible DatabaseError A
  parse column parser (some field) = parser field
  parse column parser none = elim column.default_value [
    | some value ↦ ok value
    | none ↦ err (must_not_be_null column.name)
  ]

  unfoldable pub parse_nullable :
      Column A → (F → Fallible DatabaseError A) → Option F → Fallible DatabaseError (Option A)
  parse_nullable column parser none = ok none
  parse_nullable column parser (some field) = do value ← parser field; ok (some value)

-- `row[idx]`; an index behind the end, which C++ does not define, is an error here.
unfoldable pub field_at : {F : Type 0} → List (Option F) → ℕ → Fallible DatabaseError (Option F)
field_at [] n = err (no_such_column n)
field_at (f ∷ fs) zero = ok f
field_at (f ∷ fs) (suc n) = field_at fs n

module _ (database : Database) where
  open database use {Field, get_string, get_integer, get_unsigned, read_hex_word}

  unfoldable pub boolean_parser : Field → Fallible DatabaseError Bool
  boolean_parser field = ok (bytes_eq (get_string field) (codes "Y"))

  unfoldable pub hex_parser : Field → Fallible DatabaseError ℕ
  hex_parser field = ok (read_hex_word (get_string field))

  unfoldable pub integer_parser : Field → Fallible DatabaseError ℤ
  integer_parser field = ok (get_integer field)

  unfoldable pub unsigned_parser : Field → Fallible DatabaseError ℕ
  unsigned_parser field = ok (get_unsigned field)

  unfoldable pub string_parser : Field → Fallible DatabaseError Bytes
  string_parser field = ok (get_string field)
