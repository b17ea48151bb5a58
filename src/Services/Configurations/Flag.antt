-- ===== src/Services/Configurations/Flag.antt =====
-- `Board::setEnvironment` (mapi/src/board/Board.cpp), by which the services of the configurations mark
-- that they are at work.
use fit_fred.Common.{
  ◌≡◌, refl, ap, Fallible, ok, err, Bytes, [], ◌∷◌, Option, none, some, List, if◌then◌else◌,
  bytes_eq, Bool-cases, Option-cases, inl, inr,
}
use fit_fred.Board.Defs as Board
use fit_fred.Board.Defs.{Board, Variable, find_variable}
use fit_fred.Services.ResetFee.Identity.{get_environment}

module _ {Double : Type 0} where
  -- The value of the variable through the reference that `at` returns.
  unfoldable pub assign_variable : Bytes → Double → List (Variable Double) → List (Variable Double)
  assign_variable key value [] = []
  assign_variable key value (v ∷ vs) =
      if bytes_eq v.name key
      then record v { value = value } ∷ vs
      else v ∷ assign_variable key value vs

  -- `setEnvironment`. A variable that is not there throws; a board without variables is a null
  -- pointer in the source, and an error here.
  unfoldable pub set_environment :
      Board Double → Bytes → Double → Fallible Board.Error (Board Double)
  unfolding find_variable assign_variable
  set_environment board name value = elim board.environment [
    | none ↦ err (Board.unknown_variable name)
    | some variables ↦ elim (find_variable name variables) [
      | none ↦ err (Board.unknown_variable name)
      | some _ ↦ ok (record board { environment = some (assign_variable name value variables) })
    ]
  ]

  find-assign :
      (key : Bytes) (value : Double) (vs : List (Variable Double)) (v : Variable Double)
      → find_variable key vs ≡ some v
      → find_variable key (assign_variable key value vs) ≡ some (record v { value = value })
  unfolding find_variable assign_variable
  find-assign key value [] v h = cc
  find-assign key value (u ∷ us) v h = elim (Bool-cases (bytes_eq u.name key)) [
    | inl e ↦
        let here : ◌≡◌ {A = Option _} (some u) (some v) = rw (find_variable, e) at h in
        let same : u ≡ v = cc in
        rw (assign_variable, e, find_variable, e)
          (ap (λ (w : Variable Double). some (record w { value = value })) same)
    | inr e ↦
        let rest : find_variable key us ≡ some v = rw (find_variable, e) at h in
        rw (assign_variable, e, find_variable, e) (find-assign key value us v rest)
  ]

  -- A variable that can be read can be set, and then it has the value that it was given.
  pub get-set_environment :
      (board : Board Double) (name : Bytes) (value old : Double)
      → get_environment board.environment name ≡ ok old
      → (after : Board Double) × (set_environment board name value ≡ ok after)
        × (get_environment after.environment name ≡ ok value)
  unfolding set_environment get_environment
  get-set_environment board name value old h = elim (Option-cases board.environment) [
    | inl e ↦
        let thrown : ◌≡◌ {A = Fallible Board.Error Double} (err (Board.unknown_variable name))
            (ok old) =
          rw (get_environment, e) at h in
        cc
    | inr (vs, e) ↦ elim (Option-cases (find_variable name vs)) [
      | inl q ↦
          let thrown : ◌≡◌ {A = Fallible Board.Error Double} (err (Board.unknown_variable name))
              (ok old) =
            rw (get_environment, e, q) at h in
          cc
      | inr (v, q) ↦ (
        record board { environment = some (assign_variable name value vs) },
        rw (set_environment, e, q) refl,
        rw (get_environment, find-assign name value vs v q) refl,
      )
    ]
  ]
