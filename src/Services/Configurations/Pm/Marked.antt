-- ===== src/Services/Configurations/Pm/Marked.antt =====
-- The variable of the service over the two calls of one exchange.
use fit_fred.Common.{
  ◌≡◌, refl, sym, ap, subst, Fallible, ok, err, Fallible-cases, Bytes, List, true, is_empty, not,
  ◌⊎◌, inl, inr,
}
use fit_fred.Common.Int.{ℤ, pos}
use fit_fred.Platform.{Platform}
use fit_fred.Board.Defs as Board
use fit_fred.Database.Columns.{DatabaseError}
use fit_fred.Database.Rows.{ConfigurationValue}
use fit_fred.Handler.Defs.{Handler}
use fit_fred.Handler.Send.{process_message_from_wincc}
use fit_fred.Handler.Send.Frame.{process_message_from_wincc-board}
use fit_fred.Handler.Receive.{Outcome, process_message_from_alf}
use fit_fred.Handler.Receive.Frame.{process_message_from_alf-environment}
use fit_fred.Services.ResetFee.Identity.{get_environment}
use fit_fred.Services.Configurations.{parse_configuration_info}
use fit_fred.Services.Configurations.Flag.{get-set_environment}
use fit_fred.Services.Configurations.Pm.{
  Input, sequence, bad_rows, bad_request, marked, caught, try_send, try_block,
  process_input_message, process_output_message,
}

-- The exception was caught.
abbrev pub IsRefused : Input → Type 0
IsRefused (sequence text) = ⊥
IsRefused _ = Unit

module _ (platform : Platform) where
  open platform use {Double, from_int64}

  -- The variable of the service has a value.
  abbrev pub Shows : Handler Double → Bytes → Double → Type 0
  Shows h service value = get_environment h.board.environment service ≡ ok value

  marked-Shows :
      (h : Handler Double) (service : Bytes) (value : ℤ) (old : Double)
      → Shows h service old
      → (next : Handler Double) × (marked platform h service value ≡ ok next)
        × Shows next service (from_int64 value)
  unfolding marked
  marked-Shows h service value old shown =
      let (board, set, shows) = get-set_environment h.board service (from_int64 value) old shown in
      (record h { board = board }, rw (marked, set) refl, shows)

  -- How the first call ends, on a handler whose variable is set.
  abbrev pub InputEnd : Bytes → Handler Double × Fallible Board.Error Input → Type 0
  InputEnd service r =
      ((text : Bytes) × (r.1 ≡ ok (sequence text)) × Shows r.0 service (from_int64 (pos 1)))
      ⊎ ((e : Input) × (r.1 ≡ ok e) × IsRefused e × Shows r.0 service (from_int64 (pos 0)))

  caught-ends :
      (h : Handler Double) (service : Bytes) (input : Input) (old : Double)
      → IsRefused input
      → Shows h service old
      → InputEnd service (caught platform h service input)
  unfolding caught
  caught-ends h service input old refused shown =
      let (next, set, shows) = marked-Shows h service (pos 0) old shown in
      rw (caught, set) (inr (input, refl, refused, shows))

  try_send-ends :
      (h : Handler Double) (service req : Bytes)
      → Shows h service (from_int64 (pos 1))
      → InputEnd service (try_send platform h service req)
  unfolding try_send
  try_send-ends h service req shown =
      let next = (process_message_from_wincc platform h req true).0 in
      let same : Shows next service (from_int64 (pos 1)) =
        subst
          (λ (b : Board.Board Double).
            get_environment b.environment service ≡ ok (from_int64 (pos 1)))
          (sym (process_message_from_wincc-board platform h req true)) shown in
      elim (Fallible-cases (process_message_from_wincc platform h req true).1) [
        | inl (text, e) ↦ rw (try_send, e) (inl (text, refl, same))
        | inr (x, e) ↦ rw (try_send, e) (caught-ends next service (bad_request x) _ tt same)
      ]

  try_block-ends :
      (h : Handler Double) (service request : Bytes)
      (rows : Fallible DatabaseError (List ConfigurationValue))
      → Shows h service (from_int64 (pos 1))
      → InputEnd service (try_block platform h service request rows)
  unfolding try_block
  try_block-ends h service request (err e) shown = caught-ends h service (bad_rows e) _ tt shown
  try_block-ends h service request (ok rows) shown =
      try_send-ends h service (parse_configuration_info request rows).req shown

  -- A service whose variable is there: the first call throws nothing; it gives a sequence, and the
  -- variable is 1, or it published an exception, and the variable is 0.
  pub process_input_message-ends :
      (h : Handler Double) (service request : Bytes)
      (rows : Fallible DatabaseError (List ConfigurationValue)) (old : Double)
      → Shows h service old
      → InputEnd service (process_input_message platform h service request rows)
  unfolding process_input_message
  process_input_message-ends h service request rows old shown =
      let (next, set, shows) = marked-Shows h service (pos 1) old shown in
      rw (process_input_message, set) (try_block-ends next service request rows shows)

  pub process_output_message-ends :
      (h : Handler Double) (service msg : Bytes) (old : Double)
      → Shows h service old
      → (next : Handler Double) × (process_output_message platform h service msg ≡ (
        next,
        ok (
          process_message_from_alf platform h msg,
          not (is_empty (process_message_from_alf platform h msg).report),
        ),
      ))
        × Shows next service (from_int64 (pos 0))
  unfolding process_output_message
  process_output_message-ends h service msg old shown =
      let out = process_message_from_alf platform h msg in
      let kept : get_environment out.board.environment service ≡ ok old =
        rw (process_message_from_alf-environment platform h msg) shown in
      let (next, set, shows) =
        marked-Shows (record h { board = out.board }) service (pos 0) old kept in
      (next, rw (process_output_message, set) refl, shows)

  -- A service whose variable is among the shared ones, whatever the configuration and the answer:
  -- neither call throws. Either a sequence is sent with the variable at 1, and the second call sets
  -- it back to 0 and returns an error exactly if the handler reports one; or the exception of the
  -- first call was caught and the variable is 0 already.
  pub exchange-Shows :
      (h : Handler Double) (service request : Bytes)
      (rows : Fallible DatabaseError (List ConfigurationValue)) (answer : Bytes) (old : Double)
      → Shows h service old
      → let first = process_input_message platform h service request rows in
        let second = process_output_message platform first.0 service answer in
        ((text : Bytes) × (out : Outcome Double) × (first.1 ≡ ok (sequence text))
          × Shows first.0 service (from_int64 (pos 1))
          × (second.1 ≡ ok (out, not (is_empty out.report)))
          × Shows second.0 service (from_int64 (pos 0)))
        ⊎ ((e : Input) × (first.1 ≡ ok e)
            × IsRefused e
            × Shows first.0 service (from_int64 (pos 0)))
  exchange-Shows h service request rows answer old shown =
      let first = process_input_message platform h service request rows in
      elim (process_input_message-ends h service request rows old shown) [
        | inr refused ↦ inr refused
        | inl (text, sent, shows) ↦
            let (next, returns, cleared) =
              process_output_message-ends first.0 service answer _ shows in
            inl (
              text,
              process_message_from_alf platform first.0 answer,
              sent,
              shows,
              ap (λ r. r.1) returns,
              rw returns cleared,
            )
      ]
