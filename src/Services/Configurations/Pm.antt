-- ===== src/Services/Configurations/Pm.antt =====
-- mapi/src/services/configurations/PmConfigurations.cpp: the request of a configuration is sent to a
-- PM, whose answer comes in a second call. A variable named after the service is 1 in between.
pub mod Marked
use fit_fred.Common.{
  Fallible, ok, err, Bytes, List, Option, none, some, Bool, true, false, is_empty, not,
}
use fit_fred.Common.Int.{ℤ, pos}
use fit_fred.Platform.{Platform}
use fit_fred.Board.Defs as Board
use fit_fred.Database.Columns.{DatabaseError}
use fit_fred.Database.Rows.{ConfigurationValue}
use fit_fred.Handler.Defs.{Error, Handler}
use fit_fred.Handler.Send.{process_message_from_wincc}
use fit_fred.Handler.Receive.{Outcome, process_message_from_alf}
use fit_fred.Services.Configurations.{parse_configuration_info}
use fit_fred.Services.Configurations.Flag.{set_environment}

-- What `processInputMessage` gives: the sequence to send, or the exception whose text it published.
pub data Input : Type 0 where
  sequence : Bytes → Input
  bad_rows : DatabaseError → Input
  bad_request : Error → Input

module _ (platform : Platform) where
  open platform use {Double, from_int64}

  -- The variable of the service is set; an exception leaves the method.
  unfoldable pub marked : Handler Double → Bytes → ℤ → Fallible Board.Error (Handler Double)
  marked h service value = elim (set_environment h.board service (from_int64 value)) [
    | err e ↦ err e
    | ok board ↦ ok (record h { board = board })
  ]

  -- The `catch` block.
  caught : Handler Double → Bytes → Input → Handler Double × Fallible Board.Error Input
  unfolding marked
  caught h service input = elim (marked h service (pos 0)) [
    | err e ↦ (h, err e)
    | ok next ↦ (next, ok input)
  ]

  try_send : Handler Double → Bytes → Bytes → Handler Double × Fallible Board.Error Input
  unfolding caught
  try_send h service req = elim (process_message_from_wincc platform h req true).1 [
    | ok text ↦ ((process_message_from_wincc platform h req true).0, ok (sequence text))
    | err e ↦ caught (process_message_from_wincc platform h req true).0 service (bad_request e)
  ]

  try_block :
      Handler Double
      → Bytes
      → Bytes
      → Fallible DatabaseError (List ConfigurationValue)
      → Handler Double × Fallible Board.Error Input
  unfolding try_send caught
  try_block h service request (err e) = caught h service (bad_rows e)
  try_block h service request (ok rows) =
      try_send h service (parse_configuration_info request rows).req

  -- `rows` is what the query for the configuration gives.
  unfoldable pub process_input_message :
      Handler Double
      → Bytes
      → Bytes
      → Fallible DatabaseError (List ConfigurationValue)
      → Handler Double × Fallible Board.Error Input
  unfolding try_block marked
  process_input_message h service request rows = elim (marked h service (pos 1)) [
    | err e ↦ (h, err e)
    | ok next ↦ try_block next service request rows
  ]

  -- The outcome, and whether an error is returned with it.
  unfoldable pub process_output_message :
      Handler Double → Bytes → Bytes → Handler Double × Fallible Board.Error (Outcome Double × Bool)
  unfolding marked
  process_output_message h service msg =
      let out = process_message_from_alf platform h msg in
      elim (marked (record h { board = out.board }) service (pos 0)) [
        | err e ↦ (record h { board = out.board }, err e)
        | ok next ↦ (next, ok (out, not (is_empty out.report)))
      ]
