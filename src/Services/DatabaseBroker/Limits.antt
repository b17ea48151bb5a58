-- ===== src/Services/DatabaseBroker/Limits.antt =====
-- The values that requests write into stored configurations.
use fit_fred.Common.{
  ◌≡◌, refl, sym, arith, Fallible, ok, err, ◌>>=◌, ◌>>◌, >>=-eq-ok, or_throw, or_throw-eq-ok,
  throw_if, subst, throw_if-eq-ok, ok-injective, Bytes, [], ◌∷◌, Option, some, List, false, ◌||◌,
  not, ◌⊎◌, inl, inr,
}
use fit_fred.Common.Int.{ℤ, ◌≤ℤ◌, ltbℤ}
use fit_fred.Utils.Decimal.{signed_decimal}
use fit_fred.Platform.{Platform}
use fit_fred.Board.Defs as Board
use fit_fred.Board.Defs.{Board, ParameterInfo, find, at, does_exist, calculate_electronic}
use fit_fred.Board.Codes.{InRange}
use fit_fred.Board.Lookup.{at-find}
use fit_fred.Services.Requests.{get_all, comma}
use fit_fred.Services.DatabaseBroker.{
  outside_valid_range, invalid_board_name, invalid_parameter_name, not_a_number, Query, insert_into,
  update_set, Library, Refusal, Command, insert_parameter, update_parameter, parameters_table,
  configuration_name, board_name, board_type, parameter_name, parameter_value, find_board,
}
use fit_fred.Services.DatabaseBroker.Construct.{
  type_name, through_board, within_limits, compute, value_on_board, electronic_value,
  insert_parameters, update_parameters, printed, construct,
}

within-limits : (lo v hi : ℤ) → ltbℤ hi v || ltbℤ v lo ≡ false → (lo ≤ℤ v) × (v ≤ℤ hi)
within-limits lo v hi h = (ground arith, ground arith)

through_board-eq-ok {ℓ} :
    {A : Type ℓ} (m : Fallible Board.Error A) {a : A} → through_board m ≡ ok a → m ≡ ok a
through_board-eq-ok (ok b) h = cc
through_board-eq-ok (err e) h = cc

-- The query that writes an electronic value.
abbrev pub change : Command → Bytes → Bytes → Bytes → Bytes → ℤ → Option Query
change insert_parameter config board type param v = some (
    insert_into parameters_table (
      (configuration_name, config)
      ∷ (board_name, board)
      ∷ (board_type, type)
      ∷ (parameter_name, param)
      ∷ (parameter_value, signed_decimal v)
      ∷ []))
change update_parameter config board type param v = some (
    update_set parameters_table (parameter_value, signed_decimal v)
      ((configuration_name, config)
        ∷ (board_type, type)
        ∷ (board_name, board)
        ∷ (parameter_name, param)
        ∷ []))
change _ config board type param v = Option.none

module _ (platform : Platform) where
  open platform use {Double}

  -- A value of a parameter, off the text that the request gives: the parameter is one of the named
  -- board, the electronic value is what the board computes, and it is within the limits.
  pub record IsChecked (library : Library Double) (boards : List (Bytes × Board Double))
      (name param value type : Bytes) (v : ℤ) : Type 0 where
    pub board : Board Double
    pub info : ParameterInfo Double
    pub physical : Double
    pub known : find_board name boards ≡ some board
    pub type_is : type ≡ type_name board.type
    pub found : find param board.parameters ≡ some info
    pub number : library.stod value ≡ some physical
    pub computed : calculate_electronic platform board param physical ≡ ok v
    pub in_range : InRange info v

  within_limits-eq-ok :
      (board : Board Double) (param : Bytes) (v : ℤ) (result : Bytes × ℤ)
      → within_limits platform board param v ≡ ok result
      → (info : ParameterInfo Double) × (find param board.parameters ≡ some info)
        × InRange info v
        × ((type_name board.type, v) ≡ result)
  unfolding within_limits
  within_limits-eq-ok board param v result h =
      let (info, located, h1) =
        >>=-eq-ok (through_board (at board param))
          (λ info. do
            throw_if (ltbℤ info.max_value v || ltbℤ v info.min_value) outside_valid_range
            ok (type_name board.type, v))
          h in
      let (_, inside, h2) =
        >>=-eq-ok (throw_if (ltbℤ info.max_value v || ltbℤ v info.min_value) outside_valid_range)
          (λ _. ok (type_name board.type, v)) h1 in
      (
        info,
        (at-find board param info (through_board-eq-ok _ located)).0,
        within-limits info.min_value v info.max_value (throw_if-eq-ok _ _ inside),
        ok-injective h2,
      )

  compute-IsChecked :
      (library : Library Double) (boards : List (Bytes × Board Double)) (board : Board Double)
      (name param value : Bytes) (physical : Double) (result : Bytes × ℤ)
      → find_board name boards ≡ some board
      → library.stod value ≡ some physical
      → compute platform board param physical ≡ ok result
      → IsChecked library boards name param value result.0 result.1
  unfolding compute
  compute-IsChecked library boards board name param value physical result known number h =
      let (v, computed, h1) =
        >>=-eq-ok (through_board (calculate_electronic platform board param physical))
          (within_limits platform board param) h in
      let (info, found, range, same) = within_limits-eq-ok board param v result h1 in
      subst (λ r. IsChecked library boards name param value r.0 r.1) same
        (record {
          board = board;
          info = info;
          physical = physical;
          known = known;
          type_is = refl;
          found = found;
          number = number;
          computed = through_board-eq-ok _ computed;
          in_range = range;
        })

  electronic_value-IsChecked :
      (library : Library Double) (boards : List (Bytes × Board Double)) (name param value : Bytes)
      (result : Bytes × ℤ)
      → electronic_value platform library boards name param value ≡ ok result
      → IsChecked library boards name param value result.0 result.1
  unfolding electronic_value value_on_board
  electronic_value-IsChecked library boards name param value result h =
      let (board, known, h1) =
        >>=-eq-ok (or_throw (find_board name boards) (invalid_board_name name))
          (value_on_board platform library param value) h in
      let (_, exists, h2) =
        >>=-eq-ok (throw_if (not (does_exist board param)) (invalid_parameter_name param))
          (λ _. do
            physical ← or_throw (library.stod value) (not_a_number value)
            compute platform board param physical)
          h1 in
      let (physical, number, h3) =
        >>=-eq-ok (or_throw (library.stod value) (not_a_number value))
          (compute platform board param) h2 in
      compute-IsChecked library boards board name param value physical result
        (or_throw-eq-ok _ _ known) (or_throw-eq-ok _ _ number) h3

  -- What the text of a change is made of: four tokens, of which the last is a value that was checked.
  pub record IsChange (library : Library Double) (boards : List (Bytes × Board Double))
      (command : Command) (tokens : List Bytes) (text : Bytes) : Type 0 where
    pub config : Bytes
    pub name : Bytes
    pub param : Bytes
    pub value : Bytes
    pub type : Bytes
    pub v : ℤ
    pub query : Query
    pub tokens_are : tokens ≡ config ∷ name ∷ param ∷ value ∷ []
    pub changes : change command config name type param v ≡ some query
    pub text_is : library.str query ≡ text
    pub checked : IsChecked library boards name param value type v

  printed-eq-ok :
      (library : Library Double) (found : Fallible Refusal (Bytes × ℤ))
      (query_of : Bytes × ℤ → Query) {text : Bytes}
      → printed library (found >>= λ f. ok (query_of f)) ≡ ok text
      → (f : Bytes × ℤ) × (found ≡ ok f) × (library.str (query_of f) ≡ text)
  printed-eq-ok library (ok f) query_of h = (f, refl, ok-injective h)
  printed-eq-ok library (err e) query_of h = cc

  insert_parameters-IsChange :
      (library : Library Double) (boards : List (Bytes × Board Double)) (tokens : List Bytes)
      (text : Bytes)
      → printed library (insert_parameters platform library boards tokens) ≡ ok text
      → IsChange library boards insert_parameter tokens text
  unfolding insert_parameters
  insert_parameters-IsChange library boards [] text h = cc
  insert_parameters-IsChange library boards (_ ∷ []) text h = cc
  insert_parameters-IsChange library boards (_ ∷ _ ∷ []) text h = cc
  insert_parameters-IsChange library boards (_ ∷ _ ∷ _ ∷ []) text h = cc
  insert_parameters-IsChange library boards (config ∷ name ∷ param ∷ value ∷ []) text h =
      let (found, computed, same) =
        printed-eq-ok library (electronic_value platform library boards name param value) _ h in
      record {
        config = config;
        name = name;
        param = param;
        value = value;
        type = found.0;
        v = found.1;
        query = _;
        tokens_are = refl;
        changes = refl;
        text_is = same;
        checked = electronic_value-IsChecked library boards name param value found computed;
      }
  insert_parameters-IsChange library boards (_ ∷ _ ∷ _ ∷ _ ∷ _ ∷ _) text h = cc

  update_parameters-IsChange :
      (library : Library Double) (boards : List (Bytes × Board Double)) (tokens : List Bytes)
      (text : Bytes)
      → printed library (update_parameters platform library boards tokens) ≡ ok text
      → IsChange library boards update_parameter tokens text
  unfolding update_parameters
  update_parameters-IsChange library boards [] text h = cc
  update_parameters-IsChange library boards (_ ∷ []) text h = cc
  update_parameters-IsChange library boards (_ ∷ _ ∷ []) text h = cc
  update_parameters-IsChange library boards (_ ∷ _ ∷ _ ∷ []) text h = cc
  update_parameters-IsChange library boards (config ∷ name ∷ param ∷ value ∷ []) text h =
      let (found, computed, same) =
        printed-eq-ok library (electronic_value platform library boards name param value) _ h in
      record {
        config = config;
        name = name;
        param = param;
        value = value;
        type = found.0;
        v = found.1;
        query = _;
        tokens_are = refl;
        changes = refl;
        text_is = same;
        checked = electronic_value-IsChecked library boards name param value found computed;
      }
  update_parameters-IsChange library boards (_ ∷ _ ∷ _ ∷ _ ∷ _ ∷ _) text h = cc

  -- An insertion or an update for which a query is made: the arguments are four tokens, of which the
  -- first three name a configuration, a known board and a parameter of it; the query stores the
  -- electronic value that the board computes off the last one, with the name of the board's type,
  -- and that value is within the limits of the parameter.
  pub construct-IsChange :
      (library : Library Double) (boards : List (Bytes × Board Double)) (arguments : Bytes)
      (command : Command) (text : Bytes)
      → (command ≡ insert_parameter) ⊎ (command ≡ update_parameter)
      → construct platform library boards arguments command ≡ ok text
      → IsChange library boards command (get_all comma arguments) text
  unfolding construct
  construct-IsChange library boards arguments command text (inl e) h =
      subst (λ c. IsChange library boards c (get_all comma arguments) text) (sym e)
        (insert_parameters-IsChange library boards (get_all comma arguments) text (rw e at h))
  construct-IsChange library boards arguments command text (inr e) h =
      subst (λ c. IsChange library boards c (get_all comma arguments) text) (sym e)
        (update_parameters-IsChange library boards (get_all comma arguments) text (rw e at h))
