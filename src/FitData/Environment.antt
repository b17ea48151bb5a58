-- ===== src/FitData/Environment.antt =====
-- `FitData::parseEnvVariables` and `FitData::checkEnvironment`.
pub mod Checked
use fit_fred.Common.{
  Fallible, ok, err, ◌>>=◌, ◌≡◌, refl, arith, Bytes, codes, [], ◌∷◌, List, if◌then◌else◌, Bool,
  true, false, is_empty, All, Bool-cases, inl, inr,
}
use fit_fred.Platform.{Platform}
use fit_fred.Board.Environment.{
  Setting, MissingSetting, setting_exists, emplace_setting, update_variable,
}
use fit_fred.Database.Rows.{EnvironmentRow}

-- The variables that must exist, in the order of the tests.
abbrev pub required_variables : List Bytes
required_variables =
    codes "LHC_CLOCK"
    ∷ codes "INTERNAL_CLOCK"
    ∷ codes "SYSTEM_CLOCK"
    ∷ codes "TDC"
    ∷ codes "PMA0_BOARD_ID"
    ∷ codes "PMC0_BOARD_ID"
    ∷ codes "TCM_BOARD_ID"
    ∷ codes "SYSTEM_ID"
    ∷ codes "BCID_OFFSET_DEFAULT"
    ∷ codes "TRIGGER_1_SIGNATURE"
    ∷ codes "TRIGGER_2_SIGNATURE"
    ∷ codes "TRIGGER_3_SIGNATURE"
    ∷ codes "TRIGGER_4_SIGNATURE"
    ∷ codes "TRIGGER_5_SIGNATURE"
    ∷ []

module _ {Double : Type 0} where
  unfoldable pub all_exist : List Bytes → List (Setting Double) → Bool
  all_exist [] settings = true
  all_exist (name ∷ names) settings =
      let rest = all_exist names settings in if setting_exists name settings then rest else false

  unfoldable pub check_environment : List (Setting Double) → Bool
  unfolding all_exist
  check_environment settings = all_exist required_variables settings

module _ (platform : Platform) where
  open platform use {Double}

  -- The first loop. A variable's value is not set by its constructor, so it is an argument here.
  unfoldable pub add_variables :
      Double
      → List EnvironmentRow
      → List (Setting Double)
      → Fallible MissingSetting (List (Setting Double))
  unfolding emplace_setting update_variable
  add_variables unset [] settings = ok settings
  add_variables unset (row ∷ rows) settings =
      let added =
        emplace_setting (record { name = row.name; value = unset; equation = row.equation })
          settings in
      if is_empty row.equation.variables
      then (do
        (next, value) ← update_variable platform row.name added
        add_variables unset rows next)
      else add_variables unset rows added

  -- The second loop.
  unfoldable pub update_variables :
      List EnvironmentRow → List (Setting Double) → Fallible MissingSetting (List (Setting Double))
  unfolding update_variable
  update_variables [] settings = ok settings
  update_variables (row ∷ rows) settings = do
    (next, value) ← update_variable platform row.name settings
    update_variables rows next

  unfoldable pub parse_env_variables :
      Double → List EnvironmentRow → Fallible MissingSetting (List (Setting Double))
  unfolding add_variables update_variables
  parse_env_variables unset rows = do
    settings ← add_variables unset rows []
    update_variables rows settings
