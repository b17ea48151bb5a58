-- ===== src/Services/ResetFee/Run.antt =====
-- `ResetFEE::processExecution` and the steps of the reset.
pub mod Order
use fit_fred.Common.{
  ℕ, ◌%◌, ◌^◌, ◌/◌, Fallible, ok, err, ◌>>=◌, Bytes, codes, [], ◌∷◌, ◌++◌, Option, none, some, List,
  ◌==◌, ◌||◌, if◌then◌else◌, Bool, true, false, not, is_empty, bytes_eq, ltb,
}
use fit_fred.Common.Int.{ℤ, pos, to_u32}
use fit_fred.Platform.{Platform}
use fit_fred.Board.Defs as Board
use fit_fred.Board.Defs.{at, get_physical_value, Variable}
use fit_fred.Handler.Defs.{Handler}
use fit_fred.WinCc.Request.Build.{read_request, write_request, append_to_request}
use fit_fred.Database.Rows.{ConfigurationValue}
use fit_fred.Services.Configurations.{parse_configuration_info}
use fit_fred.Services.Exchange.{Alf}
use fit_fred.Services.Chain.{Step, Report, send, send_all}
use fit_fred.Services.ResetFee.Identity.{
  identity, contains, get_environment, get_env_board_id, to_word,
}
use fit_fred.Services.ResetFee.Requests.{
  reset_steps, read_fee_id, triggers_request, is_board_id_incorrect, gbt_request,
}
use fit_fred.Services.ResetFee.Spi.{
  Result, spi_mask_name, value_or_zero, with_parent, update_pm_spi_mask,
}

-- Why a step of the reset fails: an exception, error reports, or no GBT configuration for a board.
pub data FeeError : Type 0 where
  thrown : Board.Error → FeeError
  reported : Report → FeeError
  no_gbt_configuration : Bytes → FeeError

abbrev outcome_of : Fallible Board.Error Report → Fallible FeeError (Unit {0})
outcome_of (err e) = err (thrown e)
outcome_of (ok []) = ok tt
outcome_of (ok (e ∷ es)) = err (reported (e ∷ es))

-- The state of the service and of the world.
pub record Fee (W Double : Type 0) : Type 0 where
  pub world : W
  pub tcm : Handler Double
  pub pms : List (Handler Double)
  pub enforce_default : Bool
  pub force_local_clock : Bool
  pub initialized : Bool

-- A step on the state that may fail, and a step behind another one.
abbrev pub Action : Type 0 → Type 0 → Type 0
Action W Double = Fee W Double → Fee W Double × Fallible FeeError (Unit {0})

module _ {W Double : Type 0} where
  after_outcome :
      Fee W Double × Fallible FeeError (Unit {0})
      → Action W Double
      → Fee W Double × Fallible FeeError (Unit {0})
  after_outcome (s, ok _) second = second s
  after_outcome (s, err e) second = (s, err e)

  infixr 5 ◌|>◌
  unfoldable pub ◌|>◌ : Action W Double → Action W Double → Action W Double
  unfolding after_outcome
  (first |> second) s = after_outcome (first s) second

-- `fetchConfiguration` for the GBT configuration of a board, whose rows come from the database.
module _ (platform : Platform) {W : Type 0} (alf : Alf W)
    (fetch : Bytes → List ConfigurationValue) where
  open platform use {Double, from_int64}

  -- `applyGbtConfigurationToBoard`.
  apply_to_board :
      Option (List (Variable Double))
      → W
      → Handler Double
      → W × Handler Double × Fallible FeeError (Unit {0})
  unfolding gbt_request send
  apply_to_board variables w h =
      if is_empty (fetch h.board.name)
      then (w, h, err (no_gbt_configuration h.board.name))
      else elim (gbt_request platform variables h.board (fetch h.board.name)) [
        | err e ↦ (w, h, err (thrown e))
        | ok request ↦
            let (after, next, report) = send platform alf w h (request, true) in
            (after, next, outcome_of (ok report))
      ]

  -- The ids are compared once they were read, and the configuration is applied if one differs or if
  -- it is enforced.
  compare_ids :
      Bool
      → Option (List (Variable Double))
      → W × Handler Double × Report
      → W × Handler Double × Fallible FeeError (Unit {0})
  unfolding apply_to_board is_board_id_incorrect
  compare_ids enforce variables (w, h, e ∷ es) = (w, h, err (reported (e ∷ es)))
  compare_ids enforce variables (w, h, []) =
      elim (is_board_id_incorrect platform variables h.board) [
        | err e ↦ (w, h, err (thrown e))
        | ok incorrect ↦
            if incorrect || enforce then apply_to_board variables w h else (w, h, ok tt)
      ]

  unfoldable pub configure_board :
      Bool
      → Option (List (Variable Double))
      → W
      → Handler Double
      → W × Handler Double × Fallible FeeError (Unit {0})
  unfolding compare_ids send read_fee_id
  configure_board enforce variables w h =
      compare_ids enforce variables (send platform alf w h (read_fee_id, true))

  -- `checkSPIMask`: the bit of the PM's number, whatever its side.
  unfoldable pub check_spi_mask :
      Board.Board Double → Board.Board Double → Fallible Board.Error Bool
  unfolding identity
  check_spi_mask tcm_board board = do
    info ← at tcm_board spi_mask_name
    value ← get_physical_value info
    ok (not (to_word platform value / 2 ^ (identity board.name).number % 2 == 0))

  -- The loop over the PMs. The ones behind a failure are left as they are.
  rest_of :
      Handler Double
      → W × List (Handler Double) × Fallible FeeError (Unit {0})
      → W × List (Handler Double) × Fallible FeeError (Unit {0})
  rest_of h (w, hs, outcome) = (w, h ∷ hs, outcome)

  unfoldable pub configure_pms :
      Bool
      → Handler Double
      → W
      → List (Handler Double)
      → W × List (Handler Double) × Fallible FeeError (Unit {0})
  unfolding configure_board check_spi_mask rest_of
  configure_pms enforce tcm w [] = (w, [], ok tt)
  configure_pms enforce tcm w (pm ∷ pms) =
      let done = configure_board enforce tcm.board.environment w (with_parent tcm pm) in
      let after = rest_of done.1 (configure_pms enforce tcm done.0 pms) in
      let skipped = rest_of pm (configure_pms enforce tcm w pms) in
      elim (check_spi_mask tcm.board pm.board) [
        | err e ↦ (w, pm ∷ pms, err (thrown e))
        | ok linked ↦
            if linked
            then elim done.2 [ ok _ ↦ after | err e ↦ (done.0, done.1 ∷ pms, err e) ]
            else skipped
      ]

  -- The steps of the reset as actions on the state.
  unfoldable pub apply_reset_fee : Action W Double
  unfolding reset_steps send_all
  apply_reset_fee s = elim (at s.tcm.board (codes "COUNTER_READ_INTERVAL")) [
    | err e ↦ (s, err (thrown e))
    | ok info ↦
        let rate = value_or_zero info.electronic_value % 2 ^ 8 in
        let (after, next, report) =
          send_all platform alf s.world s.tcm (reset_steps s.force_local_clock rate) in
        (record s { world = after; tcm = next }, outcome_of (ok report))
  ]

  unfoldable pub apply_triggers_sign : Action W Double
  unfolding triggers_request send
  apply_triggers_sign s = elim (triggers_request platform s.tcm.board.environment) [
    | err e ↦ (s, err (thrown e))
    | ok request ↦
        let (after, next, report) = send platform alf s.world s.tcm (request, true) in
        (record s { world = after; tcm = next }, outcome_of (ok report))
  ]

  unfoldable pub update_masks : Action W Double
  unfolding update_pm_spi_mask
  update_masks s =
      let (after, tcm, pms, report) =
        update_pm_spi_mask platform alf s.initialized s.world s.tcm s.pms in
      (record s { world = after; tcm = tcm; pms = pms }, outcome_of report)

  configure_tcm : Action W Double
  unfolding configure_board
  configure_tcm s =
      let (after, next, outcome) =
        configure_board s.enforce_default s.tcm.board.environment s.world s.tcm in
      (record s { world = after; tcm = next }, outcome)

  configure_all_pms : Action W Double
  unfolding configure_pms
  configure_all_pms s =
      let (after, pms, outcome) = configure_pms s.enforce_default s.tcm s.world s.pms in
      (record s { world = after; pms = pms }, outcome)

  unfoldable pub apply_gbt_configuration : Action W Double
  unfolding ◌|>◌ configure_tcm configure_all_pms
  apply_gbt_configuration = configure_tcm |> configure_all_pms

  -- The flags that the request sets.
  unfoldable pub with_flags : Bytes → Fee W Double → Fee W Double
  unfolding contains
  with_flags request s = record s {
    enforce_default = contains (codes "ENFORCE_DEFAULT_GBT_CONFIG") request;
    force_local_clock = contains (codes "FORCE_LOCAL_CLOCK") request;
  }

  -- The masks alone, as if they had never been initialised.
  reinitialize : Action W Double
  unfolding update_masks
  reinitialize s =
      let (after, outcome) = update_masks (record s { initialized = false }) in
      (record after { initialized = true }, outcome)

  -- What `processExecution` does with a request, behind the change of `RESET_SYSTEM`. An outcome
  -- `ok` is published as `SUCCESS`; a thrown error is reported when the masks are reinitialised,
  -- and leaves the call otherwise.
  unfoldable pub process_request : Bytes → Action W Double
  unfolding ◌|>◌ with_flags reinitialize contains apply_reset_fee apply_triggers_sign update_masks
      apply_gbt_configuration
  process_request request s =
      let flagged = with_flags request s in
      if contains (codes "REINITIALIZE_SPI_MASK") request
      then reinitialize flagged
      else (apply_reset_fee |> apply_triggers_sign |> update_masks |> apply_gbt_configuration)
          flagged
