-- ===== src/Platform.antt =====
-- What the program takes from outside of the repository: the floating-point numbers of the machine,
-- the number formats of `std::stringstream`, the expression calculator and `Utility::splitString`
-- of the FRED core, and the order in which a `std::unordered_map` is walked. Each is a parameter.
use fit_fred.Common.{ℕ, Bytes, List, Option, Bool}
use fit_fred.Common.Int.{ℤ}
use fit_fred.Swt.Sequence.{SwtOperation}

pub record Platform : Type 1 where
  -- `double`, its conversions from and to `int64_t`, and `std::llround`.
  pub Double : Type 0
  pub from_int64 : ℤ → Double
  pub to_int64 : Double → ℤ
  pub llround : Double → ℤ
  -- `ss >> value` and `ss >> std::hex >> value`; `none` where the stream fails.
  pub read_double : Bytes → Option Double
  pub read_hex : Bytes → Option ℕ
  -- `Equation::calculate` with the calculator of the FRED core.
  pub calculate : Bytes → List Bytes → List Double → Double
  -- `std::to_string` of a `double`, and `==` of two.
  pub print_double : Double → Bytes
  pub same_double : Double → Double → Bool
  -- `Utility::splitString`.
  pub split_string : Bytes → Bytes → List Bytes
  -- The order of a walk over a map from register addresses to operations.
  pub walk : List (ℕ × SwtOperation) → List (ℕ × SwtOperation)
