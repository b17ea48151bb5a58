-- ===== src/FitData/Devices.antt =====
-- `FitData::DeviceInfo` and `FitData::fetchConnectedDevices`: the boards and their addresses.
pub mod Addresses
use fit_fred.Common.{
  ℕ, ◌+◌, ◌*◌, ◌-◌, ◌%◌, ◌^◌, Fallible, ok, err, ◌>>=◌, throw_if, ◌>>◌, Bytes, codes, [], ◌∷◌, ◌++◌,
  Option, none, some, List, ◌==◌, ◌&&◌, leb, ltb, if◌then◌else◌, Bool, true, false, bytes_eq,
  get_elem?, not,
}
use fit_fred.Board.Defs.{Board, BoardType, tcm, pm, Variable, Equation}
use fit_fred.Board.Environment.{Setting, emplace_setting}
use fit_fred.Database.Columns.{Database, DatabaseError, field_at, must_not_be_null}
use fit_fred.Database.Rows.{DeviceRow, device_row}
use fit_fred.FitData.Parameters.{construct_board}

pub data Side : Type 0 where
  side_a side_c : Side

-- What the constructor throws: an error of the row, its own error, or that of `substr` or `stoi`.
pub data DeviceError : Type 0 where
  row_error : DatabaseError → DeviceError
  invalid_board_type : DeviceError
  no_index : Bytes → DeviceError

-- The side and the index are those of a PM; they are not set for a TCM.
pub record DeviceInfo : Type 0 where
  pub name : Bytes
  pub type : BoardType
  pub placement : Option (Side × ℕ)
  pub is_connected : Bool

-- `name.find("C") != npos`.
abbrev contains_byte : ℕ → Bytes → Bool
contains_byte c [] = false
contains_byte c (b ∷ s) = if b == c then true else contains_byte c s

-- `stoi(name.substr(3, 1))`: the fourth byte must be there, and a digit.
unfoldable pub index_of : Bytes → Option ℕ
index_of name = elim (get_elem? name 3) [
  | none ↦ none
  | some c ↦ if leb 48 c && ltb c 58 then some (c - 48) else none
]

unfoldable pub device_info : DeviceRow → Fallible DeviceError DeviceInfo
unfolding index_of
device_info row =
    if bytes_eq row.board_type (codes "PM")
    then elim (index_of row.board_name) [
      | none ↦ err (no_index row.board_name)
      | some index ↦ ok (record {
        name = row.board_name;
        type = pm;
        placement = some (if contains_byte 67 row.board_name then side_c else side_a, index);
        is_connected = row.is_connected;
      })
    ]
    else if bytes_eq row.board_type (codes "TCM")
    then ok (record {
      name = row.board_name;
      type = tcm;
      placement = none;
      is_connected = row.is_connected;
    })
    else err invalid_board_type

abbrev pub address_space_size_pm : ℕ
address_space_size_pm = 512

abbrev pub base_address_pma : ℕ
base_address_pma = 512

abbrev pub base_address_pmc : ℕ
base_address_pmc = 5632

-- The address of a PM board.
unfoldable pub board_address : Side → ℕ → ℕ
board_address side_a index = (index * address_space_size_pm + base_address_pma) % 2 ^ 32
board_address side_c index = (index * address_space_size_pm + base_address_pmc) % 2 ^ 32

-- `m_boards` and `m_environmentalVariables`.
pub record Fleet (Double : Type 0) : Type 0 where
  pub boards : List (Board Double)
  pub settings : List (Setting Double)

module _ {Double : Type 0} where
  unfoldable pub find_board : Bytes → List (Board Double) → Option (Board Double)
  find_board key [] = none
  find_board key (b ∷ bs) = if bytes_eq b.name key then some b else find_board key bs

  -- `m_boards.emplace`: a name that is there already keeps its board. The result is the board that
  -- the name has afterwards.
  unfoldable pub emplace_board :
      Board Double → List (Board Double) → List (Board Double) × Board Double
  unfolding find_board
  emplace_board board boards = elim (find_board board.name boards) [
    | some old ↦ (boards, old)
    | none ↦ (boards ++ (board ∷ []), board)
  ]

  -- The variables that the boards see.
  abbrev variables : List (Setting Double) → List (Variable Double)
  variables [] = []
  variables (s ∷ ss) = record { name = s.name; value = s.value } ∷ variables ss

  -- A variable that says whether a device is connected. Its value is not set before it is updated.
  connection_setting : Double → Bytes → Bool → Setting Double
  connection_setting unset name connected = record {
    name = name;
    value = unset;
    equation = record { equation = if connected then codes "1" else codes "0"; variables = [] };
  }

  -- The first loop: every TCM is registered, and the last one is the main board of the others.
  unfoldable pub register_tcms :
      Double
      → Board Double
      → List DeviceInfo
      → Fleet Double
      → Option (Board Double)
      → Fleet Double × Option (Board Double)
  unfolding emplace_board construct_board connection_setting emplace_setting
  register_tcms unset template [] fleet main = (fleet, main)
  register_tcms unset template (d ∷ ds) fleet main = elim d.type [
    | pm ↦ register_tcms unset template ds fleet main
    | tcm ↦
        let board = construct_board d.name tcm 0 (some (variables fleet.settings)) template none in
        let (boards, registered) = emplace_board board fleet.boards in
        register_tcms unset template ds
          (record {
            boards = boards;
            settings = emplace_setting (connection_setting unset d.name true) fleet.settings;
          })
          (some registered)
  ]

  -- The second loop: every PM is registered, whether it is connected or not.
  unfoldable pub register_pms :
      Double → Board Double → Board Double → List DeviceInfo → Fleet Double → Fleet Double
  unfolding emplace_board construct_board connection_setting emplace_setting board_address
  register_pms unset template main [] fleet = fleet
  register_pms unset template main (d ∷ ds) fleet = elim d.placement [
    | none ↦ register_pms unset template main ds fleet
    | some (side, index) ↦
        let settings =
          emplace_setting (connection_setting unset d.name d.is_connected) fleet.settings in
        let board =
          construct_board d.name pm (board_address side index) (some (variables settings)) template
            (some main) in
        register_pms unset template main ds
          (record { boards = (emplace_board board fleet.boards).0; settings = settings })
  ]

  -- `fetchConnectedDevices` on the devices of the table; `none` is its result `false`.
  unfoldable pub fetch_connected_devices :
      Double → Board Double → Board Double → List DeviceInfo → Fleet Double → Option (Fleet Double)
  unfolding register_tcms register_pms
  fetch_connected_devices unset tcm_template pm_template devices fleet =
      let (registered, main) = register_tcms unset tcm_template devices fleet none in
      elim main [
        | none ↦ none
        | some board ↦ some (register_pms unset pm_template board devices registered)
      ]
