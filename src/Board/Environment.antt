-- ===== src/Board/Environment.antt =====
-- mapi/src/board/EnvironmentVariables.cpp: the variables that boards share.
pub mod Exists
use fit_fred.Common.{
  Fallible, ok, ◌>>=◌, or_throw, Bytes, [], ◌∷◌, ◌++◌, Option, none, some, List, if◌then◌else◌,
  Bool, true, false, bytes_eq,
}
use fit_fred.Platform.{Platform}
use fit_fred.Board.Defs.{Equation}

-- A variable with the equation that it is computed by.
pub record Setting (Double : Type 0) : Type 0 where
  pub name : Bytes
  pub value : Double
  pub equation : Equation

-- What `std::unordered_map::at` throws.
pub data MissingSetting : Type 0 where
  missing_setting : Bytes → MissingSetting

module _ {Double : Type 0} where
  unfoldable pub find_setting : Bytes → List (Setting Double) → Option (Setting Double)
  find_setting key [] = none
  find_setting key (s ∷ ss) = if bytes_eq s.name key then some s else find_setting key ss

  unfoldable pub setting_exists : Bytes → List (Setting Double) → Bool
  unfolding find_setting
  setting_exists key ss = elim (find_setting key ss) [ none ↦ false | some _ ↦ true ]

  -- A setting whose name is there already is not replaced.
  unfoldable pub emplace_setting : Setting Double → List (Setting Double) → List (Setting Double)
  unfolding find_setting
  emplace_setting s ss = elim (find_setting s.name ss) [ some _ ↦ ss | none ↦ ss ++ (s ∷ []) ]

  unfoldable pub get_variable : Bytes → List (Setting Double) → Fallible MissingSetting Double
  unfolding find_setting
  get_variable key ss = do s ← or_throw (find_setting key ss) (missing_setting key); ok s.value

  -- The value of the setting through the reference that `at` returns.
  unfoldable pub assign_value : Bytes → Double → List (Setting Double) → List (Setting Double)
  assign_value key value [] = []
  assign_value key value (s ∷ ss) =
      if bytes_eq s.name key then record s { value = value } ∷ ss else s ∷ assign_value key value ss

  unfoldable pub set_variable :
      Bytes → Double → List (Setting Double) → Fallible MissingSetting (List (Setting Double))
  unfolding find_setting assign_value
  set_variable key value ss = do
    _ ← or_throw (find_setting key ss) (missing_setting key)
    ok (assign_value key value ss)

  -- The values of an equation's variables.
  unfoldable pub values_of :
      List Bytes → List (Setting Double) → Fallible MissingSetting (List Double)
  unfolding get_variable
  values_of [] ss = ok []
  values_of (var ∷ vars) ss = do
    value ← get_variable var ss
    values ← values_of vars ss
    ok (value ∷ values)

module _ (platform : Platform) where
  open platform use {Double, calculate}

  unfoldable pub update_variable :
      Bytes → List (Setting Double) → Fallible MissingSetting (List (Setting Double) × Double)
  unfolding find_setting values_of assign_value
  update_variable key ss = do
    s ← or_throw (find_setting key ss) (missing_setting key)
    values ← values_of s.equation.variables ss
    let value = calculate s.equation.equation s.equation.variables values
    ok (assign_value key value ss, value)
