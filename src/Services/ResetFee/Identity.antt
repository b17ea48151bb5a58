-- ===== src/Services/ResetFee/Identity.antt =====
-- `Board::Identity` (mapi/src/board/Board.cpp), the variables that the boards share, and the board
-- ids that they give.
pub mod Accepted
use fit_fred.Common.{
  ℕ, zero, suc, ◌+◌, ◌-◌, ◌%◌, ◌^◌, Fallible, ok, err, ◌>>=◌, or_throw, Bytes, codes, [], ◌∷◌, ◌++◌,
  Option, none, some, List, ◌==◌, ◌&&◌, ◌||◌, if◌then◌else◌, Bool, true, false, bytes_eq, take,
  length,
}
use fit_fred.Common.Int.{ℤ, to_u32}
use fit_fred.Platform.{Platform}
use fit_fred.Board.Defs as Board
use fit_fred.Board.Defs.{BoardType, tcm, pm, Variable, find_variable}
use fit_fred.FitData.Devices.{Side, side_a, side_c}

pub record Identity : Type 0 where
  pub type : BoardType
  pub side : Option Side
  pub number : ℕ

-- `name.find(text) != npos`.
unfoldable pub contains : Bytes → Bytes → Bool
contains text [] = bytes_eq text []
contains text (c ∷ s) = bytes_eq (take (length text) (c ∷ s)) text || contains text s

-- `find` of one byte, and the last byte.
unfoldable pub has_byte : ℕ → Bytes → Bool
has_byte b [] = false
has_byte b (c ∷ s) = c == b || has_byte b s

unfoldable pub last_byte : ℕ → Bytes → ℕ
last_byte last [] = last
last_byte last (c ∷ s) = last_byte c s

-- The constructor reads the identity off the name. The number is a `uint8_t`.
unfoldable pub identity : Bytes → Identity
unfolding contains has_byte last_byte
identity name =
    if contains (codes "TCM") name then record { type = tcm; side = none; number = 0 } else record {
      type = pm;
      side = some (if has_byte 65 name then side_a else side_c);
      number = (last_byte 0 name + 256 - 48) % 2 ^ 8;
    }

module _ {Double : Type 0} where
  -- `getEnvironment` on the shared variables.
  unfoldable pub get_environment :
      Option (List (Variable Double)) → Bytes → Fallible Board.Error Double
  unfolding find_variable
  get_environment none name = err (Board.unknown_variable name)
  get_environment (some variables) name = elim (find_variable name variables) [
    | none ↦ err (Board.unknown_variable name)
    | some v ↦ ok v.value
  ]

module _ (platform : Platform) where
  open platform use {Double, to_int64}

  -- `static_cast<uint32_t>` of a `double` whose whole part an `int64_t` holds.
  abbrev pub to_word : Double → ℕ
  to_word d = to_u32 (to_int64 d)

  -- `getEnvBoardId`: the variables are those of the TCM's board.
  unfoldable pub get_env_board_id :
      Option (List (Variable Double)) → Identity → Fallible Board.Error ℕ
  unfolding get_environment
  get_env_board_id variables id = elim id.type [
    | tcm ↦ (do base ← get_environment variables (codes "TCM_BOARD_ID"); ok (to_word base))
    | pm ↦ elim id.side [
      | none ↦ (do base ← get_environment variables (codes "TCM_BOARD_ID"); ok (to_word base))
      | some side_a ↦ (do
        base ← get_environment variables (codes "PMA0_BOARD_ID")
        ok ((to_word base + id.number) % 2 ^ 32))
      | some side_c ↦ (do
        base ← get_environment variables (codes "PMC0_BOARD_ID")
        ok ((to_word base + id.number) % 2 ^ 32))
    ]
  ]
