-- ===== src/Services/Exchange.antt =====
-- `BasicFitIndefiniteMapi::processSequenceThroughHandler` and `readFifo`: one exchange with a board.
-- `executeAlfSequence` of the FRED core is a function that may change a world `W`, in which the
-- electronics and everything that was sent to it can be kept.
use fit_fred.Common.{ℕ, Fallible, ok, err, Bytes, [], ◌∷◌, ◌==◌, if◌then◌else◌, Bool, is_empty}
use fit_fred.Platform.{Platform}
use fit_fred.Handler.Defs.{Error, Handler}
use fit_fred.Handler.Send.{process_message_from_wincc}
use fit_fred.Handler.Receive.{Outcome, process_message_from_alf}
use fit_fred.Handler.Fifo.{
  FifoResponse, fifo_content, fifo_error, create_read_fifo_request, parse_fifo,
}

-- `executeAlfSequence`.
abbrev pub Alf : Type 0 → Type 0
Alf W = W → Bytes → W × Bytes

module _ (platform : Platform) {W : Type 0} (alf : Alf W) where
  open platform use {Double}

  -- The answer of the board to a sequence, and the handler with the values that were stored.
  answered : W → Handler Double → Bytes → W × Handler Double × Outcome Double
  unfolding process_message_from_alf
  answered w h sequence =
      let (after, answer) = alf w sequence in
      let out = process_message_from_alf platform h answer in
      (after, record h { board = out.board }, out)

  unfoldable pub process_sequence_through_handler :
      W → Handler Double → Bytes → Bool → W × Handler Double × Outcome Double
  unfolding process_message_from_wincc answered
  process_sequence_through_handler w h request read_after_write =
      let nothing : Outcome Double = record { board = h.board; response = []; report = [] } in
      if is_empty request
      then (w, h, nothing)
      else elim (process_message_from_wincc platform h request read_after_write).1 [
        | err e ↦ (
          w,
          (process_message_from_wincc platform h request read_after_write).0,
          record nothing { report = (h.board.name, e) ∷ [] },
        )
        | ok sequence ↦
            answered w (process_message_from_wincc platform h request read_after_write).0 sequence
      ]

  -- An exception of `parseFifo` leaves the call.
  unfoldable pub read_fifo :
      W → Handler Double → Bytes → ℕ → W × Handler Double × Fallible Error FifoResponse
  unfolding create_read_fifo_request parse_fifo
  read_fifo w h fifo_name words_to_read =
      if words_to_read == 0
      then (w, h, ok (fifo_content []))
      else elim (create_read_fifo_request h fifo_name words_to_read).1 [
        | err e ↦ (w, (create_read_fifo_request h fifo_name words_to_read).0, ok (fifo_error e))
        | ok sequence ↦
            let (after, answer) = alf w sequence in
            let next = (create_read_fifo_request h fifo_name words_to_read).0 in
            (after, next, parse_fifo next answer)
      ]
