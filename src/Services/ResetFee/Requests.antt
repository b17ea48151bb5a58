-- ===== src/Services/ResetFee/Requests.antt =====
-- What ResetFEE (mapi/src/services/ResetFEE.cpp) sends: the requests of its steps, and the comparison of
-- the ids that decides on one of them.
use fit_fred.Common.{
  ℕ, Fallible, ok, ◌>>=◌, Bytes, codes, [], ◌∷◌, ◌++◌, Option, none, some, List, ◌==◌,
  if◌then◌else◌, Bool, true, false, not,
}
use fit_fred.Platform.{Platform}
use fit_fred.Board.Defs as Board
use fit_fred.Board.Defs.{at, get_physical_value, Variable}
use fit_fred.WinCc.Request.Build.{read_request, write_request, append_to_request}
use fit_fred.Database.Rows.{ConfigurationValue}
use fit_fred.Services.Configurations.{parse_configuration_info}
use fit_fred.Services.Chain.{Step}
use fit_fred.Services.ResetFee.Identity.{identity, get_environment, get_env_board_id, to_word}

-- The requests of `applyResetFEE`; the rate is the `uint8_t` that was read before.
unfoldable pub reset_steps : Bool → ℕ → List Step
unfolding write_request append_to_request
reset_steps force_local_clock update_rate =
    (write_request (codes "GBT_RESET_ERROR_REPORT_FIFO") 1, true)
    ∷ (
      append_to_request [] (write_request (codes "BOARD_STATUS_RESET_SYSTEM") 1)
          ++ write_request (codes "BOARD_STATUS_FORCE_LOCAL_CLOCK")
              (if force_local_clock then 1 else 0),
      false,
    )
    ∷ (write_request (codes "BOARD_STATUS_SYSTEM_RESTARTED") 1, false)
    ∷ (write_request (codes "GBT_RESET_ERROR_REPORT_FIFO") 0, true)
    ∷ (write_request (codes "COUNTER_READ_INTERVAL") update_rate, true)
    ∷ []

abbrev board_id : Bytes
board_id = codes "GBT_RDH_FEE_ID"

abbrev system_id : Bytes
system_id = codes "GBT_RDH_SYSTEM_ID"

abbrev bc_id_delay : Bytes
bc_id_delay = codes "GBT_BCID_OFFSET"

unfoldable pub read_fee_id : Bytes
unfolding append_to_request read_request
read_fee_id = append_to_request [] (read_request board_id) ++ read_request system_id

-- The signatures of the triggers.
abbrev trigger_signatures : List Bytes
trigger_signatures =
    codes "TRIGGER_1_SIGNATURE"
    ∷ codes "TRIGGER_2_SIGNATURE"
    ∷ codes "TRIGGER_3_SIGNATURE"
    ∷ codes "TRIGGER_4_SIGNATURE"
    ∷ codes "TRIGGER_5_SIGNATURE"
    ∷ []

module _ (platform : Platform) where
  open platform use {Double, print_double, same_double}

  -- `writeRequest` of a `double`.
  write_double : Bytes → Double → Bytes
  write_double param value = param ++ (codes ",WRITE," ++ print_double value)

  -- One write for each variable; the last line has no end.
  signature_lines : Option (List (Variable Double)) → List Bytes → Fallible Board.Error (List Bytes)
  unfolding get_environment write_double
  signature_lines variables [] = ok []
  signature_lines variables (name ∷ names) = do
    value ← get_environment variables name
    lines ← signature_lines variables names
    ok (write_double name value ∷ lines)

  joined : List Bytes → Bytes
  joined [] = []
  joined (line ∷ []) = line
  joined (line ∷ next ∷ lines) = line ++ (codes "\n" ++ joined (next ∷ lines))

  unfoldable pub triggers_request : Option (List (Variable Double)) → Fallible Board.Error Bytes
  unfolding signature_lines joined
  triggers_request variables = do
    lines ← signature_lines variables trigger_signatures
    ok (joined lines)

  -- `isBoardIdIncorrect`: the second comparison is made only if the first one finds no difference.
  unfoldable pub is_board_id_incorrect :
      Option (List (Variable Double)) → Board.Board Double → Fallible Board.Error Bool
  unfolding get_env_board_id get_environment identity
  is_board_id_incorrect variables board = do
    info ← at board board_id
    value ← get_physical_value info
    expected ← get_env_board_id platform variables (identity board.name)
    if not (to_word platform value == expected) then ok true else (do
      system_info ← at board system_id
      system_value ← get_physical_value system_info
      system ← get_environment variables (codes "SYSTEM_ID")
      ok (not (same_double system_value system)))

  -- The request of `applyGbtConfigurationToBoard`.
  unfoldable pub gbt_request :
      Option (List (Variable Double))
      → Board.Board Double
      → List ConfigurationValue
      → Fallible Board.Error Bytes
  unfolding parse_configuration_info write_request write_double get_environment get_env_board_id
      identity
  gbt_request variables board rows = do
    delay ← at board bc_id_delay
    delay_line ← elim delay.physical_value [
      | none ↦ (do
        default ← get_environment variables (codes "BCID_OFFSET_DEFAULT")
        ok (write_request bc_id_delay (to_word platform default)))
      | some value ↦ ok (write_double bc_id_delay value)
    ]
    id ← get_env_board_id platform variables (identity board.name)
    system ← get_environment variables (codes "SYSTEM_ID")
    ok (
        (parse_configuration_info (codes "GBT_DEFAULT") rows).req
        ++ (delay_line
            ++ (codes "\n"
                ++ (write_request board_id id ++ (codes "\n" ++ write_double system_id system)))))
