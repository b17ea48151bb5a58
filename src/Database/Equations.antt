-- ===== src/Database/Equations.antt =====
-- `equationParser` of database/Columns: the variables of an equation stand between braces.
pub mod RoundTrip
use fit_fred.Common.{
  ℕ, zero, suc, ◌+◌, Fallible, ok, err, ◌>>=◌, Bytes, [], ◌∷◌, ◌++◌, Option, none, some, List,
  length, ◌==◌, ◌||◌, if◌then◌else◌, Bool, true, false,
}
use fit_fred.Board.Defs.{Equation}
use fit_fred.Database.Columns.{Database, DatabaseError, missing_brace}

abbrev pub open_brace : ℕ
open_brace = 123

abbrev pub close_brace : ℕ
close_brace = 125

-- What stands before the next closing brace, and the text from that brace on.
until_brace : Bytes → Option (Bytes × Bytes)
until_brace [] = none
until_brace (c ∷ s) = elim (c == close_brace) [
  | true ↦ some ([], c ∷ s)
  | false ↦ elim (until_brace s) [ none ↦ none | some (before, rest) ↦ some (c ∷ before, rest) ]
]

-- The loop over the opening braces; each round goes on at the closing brace, so that as many rounds
-- as the text has bytes are enough.
find_variables : ℕ → Bytes → Fallible DatabaseError (List Bytes)
unfolding until_brace
find_variables zero s = ok []
find_variables (suc fuel) [] = ok []
find_variables (suc fuel) (c ∷ s) = elim (c == open_brace) [
  | false ↦ find_variables fuel s
  | true ↦ elim (until_brace s) [
    | none ↦ err missing_brace
    | some (name, rest) ↦ (do names ← find_variables fuel rest; ok (name ∷ names))
  ]
]

-- `std::remove` of both braces, and `erase`.
unfoldable pub without_braces : Bytes → Bytes
without_braces [] = []
without_braces (c ∷ s) = elim (c == open_brace || c == close_brace) [
  | true ↦ without_braces s
  | false ↦ c ∷ without_braces s
]

unfoldable pub parse_equation : Bytes → Fallible DatabaseError Equation
unfolding find_variables without_braces
parse_equation text = do
  names ← find_variables (length text) text
  ok (record { equation = without_braces text; variables = names })
