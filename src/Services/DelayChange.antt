-- ===== src/Services/DelayChange.antt =====
-- mapi/src/utils/DelayChange.cpp: the request that changes the delays of a TCM, and how large the
-- change is. The request is kept as its writes.
pub mod Difference
pub mod Apply
use fit_fred.Common.{
  ℕ, zero, suc, ◌+◌, ◌-◌, ◌%◌, ◌^◌, ◌≡◌, refl, arith, max, Fallible, ok, err, ◌>>=◌, Bytes, codes,
  [], ◌∷◌, ◌++◌, Option, none, some, List, ◌==◌, if◌then◌else◌, Bool, true, false, ◌&&◌, bytes_eq,
}
use fit_fred.Common.Int.{ℤ, pos, negsuc, pos_part, neg_part}
use fit_fred.Platform.{Platform}
use fit_fred.Board.Defs as Board
use fit_fred.Board.Defs.{Board, BoardType, tcm, pm, ParameterInfo, at, calculate_electronic}
use fit_fred.WinCc.Request as WinCc
use fit_fred.WinCc.Request.{Command, CommandOperation, Request}

abbrev pub delay_a : Bytes
delay_a = codes "DELAY_A"

abbrev pub delay_c : Bytes
delay_c = codes "DELAY_C"

-- The writes of electronic values, and the largest difference.
pub record DelayChange : Type 0 where
  pub writes : List (Bytes × ℤ)
  pub delay_difference : ℕ

-- `std::abs(a - b)` of values whose difference `int64_t` holds.
abbrev pub distance : ℤ → ℤ → ℕ
distance a b =
    (pos_part a + neg_part b - (pos_part b + neg_part a))
    + (pos_part b + neg_part a - (pos_part a + neg_part b))

-- The result is a `uint32_t`.
unfoldable pub get_delay_difference : {Double : Type 0} → ParameterInfo Double → Option ℤ → ℕ
get_delay_difference info none = 0
get_delay_difference info (some new) = elim info.electronic_value [
  | none ↦ max (distance info.min_value new) (distance info.max_value new) % 2 ^ 32
  | some old ↦ distance old new % 2 ^ 32
]

-- A write if there is a difference.
append_write : Bytes → Option ℤ → ℕ → List (Bytes × ℤ) → List (Bytes × ℤ)
append_write name none difference writes = writes
append_write name (some value) difference writes =
    if difference == 0 then writes else writes ++ ((name, value) ∷ [])

abbrev pub has_none : Option ℤ → Bool
has_none none = true
has_none (some _) = false

module _ {Double : Type 0} where
  -- From the two parameters on.
  unfoldable pub change_of :
      ParameterInfo Double → ParameterInfo Double → Option ℤ → Option ℤ → Option DelayChange
  unfolding get_delay_difference append_write
  change_of info_a info_c new_a new_c =
      let a = get_delay_difference info_a new_a in
      let c = get_delay_difference info_c new_c in
      if max a c == 0
      then none
      else some (record {
        writes = append_write delay_c new_c c (append_write delay_a new_a a []);
        delay_difference = max a c;
      })

  both_parameters : Board Double → Option ℤ → Option ℤ → Fallible Board.Error (Option DelayChange)
  unfolding change_of
  both_parameters board new_a new_c = do
    info_a ← at board delay_a
    info_c ← at board delay_c
    ok (change_of info_a info_c new_a new_c)

  pub from_electronic_values :
      Board Double → Option ℤ → Option ℤ → Fallible Board.Error (Option DelayChange)
  unfolding both_parameters
  from_electronic_values board new_a new_c = elim board.type [
    | pm ↦ ok none
    | tcm ↦ if has_none new_a && has_none new_c then ok none else both_parameters board new_a new_c
  ]

module _ (platform : Platform) where
  open platform use {Double}

  optional_electronic : Board Double → Bytes → Option Double → Fallible Board.Error (Option ℤ)
  optional_electronic board name none = ok none
  optional_electronic board name (some value) = do
    electronic ← calculate_electronic platform board name value
    ok (some electronic)

  pub from_physical_values :
      Board Double → Option Double → Option Double → Fallible Board.Error (Option DelayChange)
  unfolding optional_electronic from_electronic_values
  from_physical_values board new_a new_c = elim board.type [
    | pm ↦ ok none
    | tcm ↦ (do
      electronic_a ← optional_electronic board delay_a new_a
      electronic_c ← optional_electronic board delay_c new_c
      from_electronic_values board electronic_a electronic_c)
  ]

-- Why a request is no delay change.
pub data ChangeError : Type 0 where
  bad_request : WinCc.RequestError → ChangeError
  bad_value : Board.Error → ChangeError
  unexpected_operation unexpected_parameter : ChangeError

-- The two delays that the commands give.
take_delays :
    {Double : Type 0}
    → List (Command Double)
    → Option Double
    → Option Double
    → Fallible ChangeError (Option Double × Option Double)
take_delays [] new_a new_c = ok (new_a, new_c)
take_delays (command ∷ commands) new_a new_c = elim command.operation [
  | CommandOperation.read ↦ err unexpected_operation
  | CommandOperation.write_electronic ↦ err unexpected_operation
  | CommandOperation.write ↦ elim (bytes_eq command.name delay_a) [
    | true ↦ take_delays commands command.value new_c
    | false ↦ elim (bytes_eq command.name delay_c) [
      | true ↦ take_delays commands new_a command.value
      | false ↦ err unexpected_parameter
    ]
  ]
]

module _ (platform : Platform) where
  open platform use {Double}

  pub from_wincc_request : Board Double → Bytes → Fallible ChangeError (Option DelayChange)
  unfolding take_delays from_physical_values
  from_wincc_request board request = elim (WinCc.parse_request platform request) [
    | err e ↦ err (bad_request e)
    | ok parsed ↦ (do
      delays ← take_delays parsed.commands none none
      elim (from_physical_values platform board delays.0 delays.1) [
        | err e ↦ err (bad_value e)
        | ok change ↦ ok change
      ])
  ]
