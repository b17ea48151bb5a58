-- ===== src/Board/Defs.antt =====
-- `Board`, `Board::ParameterInfo` and their methods. The parameters of the parent board and the
-- environment variables are objects that other services share; a board holds what they are now.
use fit_fred.Common.{
  ℕ, ◌+◌, ◌*◌, ◌%◌, ◌^◌, Fallible, ok, err, ◌>>=◌, or_throw, Bytes, [], ◌∷◌, ◌++◌, Option, none,
  some, List, if◌then◌else◌, Bool, true, false, bytes_eq, is_empty,
}
use fit_fred.Common.Int.{ℤ, to_u32, pos}
use fit_fred.Utils.BitField.{get_bit_field}
use fit_fred.Utils.TwosComplement.{encode, decode}
use fit_fred.Platform.{Platform}

-- What the board's methods throw, and what BoardCommunicationHandler does.
pub data Error : Type 0 where
  parameter_not_found : Bytes → Error
  parameter_does_not_exist : Bytes → Error
  no_stored_value : Bytes → Error
  unknown_variable : Bytes → Error

pub data ValueEncoding : Type 0 where
  unsigned signed : ValueEncoding

pub data RefreshType : Type 0 where
  cnt sync not_refreshed : RefreshType

pub record Equation : Type 0 where
  pub equation : Bytes
  pub variables : List Bytes

pub record ParameterInfo (Double : Type 0) : Type 0 where
  pub name : Bytes
  pub base_address : ℕ
  pub start_bit : ℕ
  pub bit_length : ℕ
  pub reg_block_size : ℕ
  pub value_encoding : ValueEncoding
  pub min_value : ℤ
  pub max_value : ℤ
  pub electronic_to_physic : Equation
  pub physic_to_electronic : Equation
  pub is_fifo : Bool
  pub is_readonly : Bool
  pub refresh_type : RefreshType
  pub physical_value : Option Double
  pub electronic_value : Option ℤ

pub record Variable (Double : Type 0) : Type 0 where
  pub name : Bytes
  pub value : Double

pub data BoardType : Type 0 where
  tcm pm : BoardType

pub record Board (Double : Type 0) : Type 0 where
  pub name : Bytes
  pub type : BoardType
  pub address : ℕ
  pub parent : Option (List (ParameterInfo Double))
  pub environment : Option (List (Variable Double))
  pub parameters : List (ParameterInfo Double)

module _ {Double : Type 0} where
  -- `m_parameters.find`: the key of an entry is the name of its parameter.
  unfoldable pub find : Bytes → List (ParameterInfo Double) → Option (ParameterInfo Double)
  find key [] = none
  find key (p ∷ ps) = if bytes_eq p.name key then some p else find key ps

  unfoldable pub find_variable : Bytes → List (Variable Double) → Option (Variable Double)
  find_variable key [] = none
  find_variable key (v ∷ vs) = if bytes_eq v.name key then some v else find_variable key vs

  -- A board address is added to the base address of the template's parameter.
  unfoldable pub at_address : ParameterInfo Double → ℕ → ParameterInfo Double
  at_address base board_address = record base {
    base_address = (base.base_address + board_address) % 2 ^ 32;
    physical_value = none;
    electronic_value = none;
  }

  -- `emplace`: a name that is there already is not replaced.
  unfoldable pub emplace : Board Double → ParameterInfo Double → Board Double × Bool
  unfolding at_address
  emplace b info = elim (find info.name b.parameters) [
    | some _ ↦ (b, false)
    | none ↦ (record b { parameters = b.parameters ++ (at_address info b.address ∷ []) }, true)
  ]

  unfoldable pub at : Board Double → Bytes → Fallible Error (ParameterInfo Double)
  at b param = or_throw (find param b.parameters) (parameter_not_found param)

  unfoldable pub does_exist : Board Double → Bytes → Bool
  does_exist b param = elim (find param b.parameters) [ none ↦ false | some _ ↦ true ]

  -- `ParameterInfo::storeValue` through the reference that `at` returns.
  unfoldable pub store :
      Bytes → Option Double → Option ℤ → List (ParameterInfo Double) → List (ParameterInfo Double)
  store key physical electronic [] = []
  store key physical electronic (p ∷ ps) =
      if bytes_eq p.name key
      then record p { physical_value = physical; electronic_value = electronic } ∷ ps
      else p ∷ store key physical electronic ps

  unfoldable pub store_value : Board Double → Bytes → Option Double → Option ℤ → Board Double
  unfolding store
  store_value b param physical electronic = record b {
    parameters = store param physical electronic b.parameters;
  }

  -- `getPhysicalValue` and `getElectronicValue`.
  pub get_physical_value : ParameterInfo Double → Fallible Error Double
  get_physical_value info = or_throw info.physical_value (no_stored_value info.name)

  pub get_electronic_value : ParameterInfo Double → Fallible Error ℤ
  get_electronic_value info = or_throw info.electronic_value (no_stored_value info.name)

  -- The value that a field's bits stand for.
  unfoldable pub value_of_code : ParameterInfo Double → ℕ → ℤ
  value_of_code info code = elim info.value_encoding [
    | unsigned ↦ pos code
    | signed ↦ decode code info.bit_length
  ]

  -- The bit positions go into `uint8_t` parameters of `getBitField`.
  unfoldable pub field_of : ParameterInfo Double → ℕ → ℕ
  field_of info raw = get_bit_field raw (info.start_bit % 2 ^ 8) (info.bit_length % 2 ^ 8)

  unfoldable pub parse_electronic : Board Double → Bytes → ℕ → Fallible Error ℤ
  unfolding value_of_code field_of
  parse_electronic b param raw = do
    info ← or_throw (find param b.parameters) (parameter_does_not_exist param)
    ok (value_of_code info (field_of info raw))

  unfoldable pub code_of : ParameterInfo Double → ℤ → ℕ
  code_of info electronic = elim info.value_encoding [
    | unsigned ↦ to_u32 electronic
    | signed ↦ encode electronic info.bit_length
  ]

  -- The shift is one of `uint32_t`: what leaves the word is lost.
  unfoldable pub convert_electronic_to_raw : Board Double → Bytes → ℤ → Fallible Error ℕ
  unfolding code_of
  convert_electronic_to_raw b param electronic = do
    info ← or_throw (find param b.parameters) (parameter_does_not_exist param)
    ok (code_of info electronic * 2 ^ info.start_bit % 2 ^ 32)

-- The equations, whose calculator is a parameter.
module _ (platform : Platform) where
  open platform use {Double, from_int64, to_int64, llround, calculate}

  from_environment : Option (List (Variable Double)) → Bytes → Fallible Error Double
  from_environment none var = err (unknown_variable var)
  from_environment (some vs) var = elim (find_variable var vs) [
    | none ↦ err (unknown_variable var)
    | some v ↦ ok v.value
  ]

  -- The value of one variable of the equation of `info`: the value at hand, a parameter of the board,
  -- of its parent, or an environment variable, in this order.
  variable_value : Board Double → ParameterInfo Double → Double → Bytes → Fallible Error Double
  unfolding get_physical_value from_environment
  variable_value b info own var =
      if bytes_eq var info.name then ok own else elim (find var b.parameters) [
        | some p ↦ get_physical_value p
        | none ↦ elim b.parent [
          | none ↦ from_environment b.environment var
          | some ps ↦ elim (find var ps) [
            | some p ↦ get_physical_value p
            | none ↦ from_environment b.environment var
          ]
        ]
      ]

  -- One value for each variable, so the source's check of their number always passes.
  variable_values :
      Board Double → ParameterInfo Double → Double → List Bytes → Fallible Error (List Double)
  unfolding variable_value
  variable_values b info own [] = ok []
  variable_values b info own (var ∷ vars) = do
    value ← variable_value b info own var
    values ← variable_values b info own vars
    ok (value ∷ values)

  unfoldable pub calculate_physical : Board Double → Bytes → ℤ → Fallible Error Double
  unfolding variable_values
  calculate_physical b param electronic = do
    info ← or_throw (find param b.parameters) (parameter_does_not_exist param)
    let eq = info.electronic_to_physic
    if is_empty eq.equation then ok (from_int64 electronic) else (do
      values ← variable_values b info (from_int64 electronic) eq.variables
      ok (calculate eq.equation eq.variables values))

  unfoldable pub calculate_electronic : Board Double → Bytes → Double → Fallible Error ℤ
  unfolding variable_values
  calculate_electronic b param physical = do
    info ← or_throw (find param b.parameters) (parameter_does_not_exist param)
    let eq = info.physic_to_electronic
    if is_empty eq.equation then ok (to_int64 physical) else (do
      values ← variable_values b info physical eq.variables
      ok (llround (calculate eq.equation eq.variables values)))
