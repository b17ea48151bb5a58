-- ===== src/Tests/Texts.antt =====
-- Examples of the theorems on the answers of ALF and the requests of WinCC.
use fit_fred.Common.{◌≡◌, ◌≢◌, refl, arith, ok, none, some, [], ◌∷◌, ◌++◌, codes, true, Bytes}
use fit_fred.Alf.Hex.{too_few_rounds, string_to_byte, char_to_hex}
use fit_fred.Alf.Frame.{SwtFrame, IsFrame, swt_frame}
use fit_fred.Alf.Parser.{lines, success_text, is_success}
use fit_fred.Alf.Parser.Reply.{read_reply, write_reply, joined, kept}
use fit_fred.Alf.Parser.RoundTrip.{lines-joined}
use fit_fred.Alf.Parser.Termination.{lines-ends}
use fit_fred.Board.Defs.{find}
use fit_fred.Handler.Fifo.{RowList, fifo_rows}
use fit_fred.Handler.Fifo.Rows.{fifo_rows-IsFilled, IsFilled, concat, decoded}
use fit_fred.Handler.Send.{process_message_from_wincc}
use fit_fred.Handler.Send.Invariant.{IsConsistent, process_message_from_wincc-IsConsistent}
use fit_fred.Services.BlockRead.{parse_block}
use fit_fred.Services.BlockRead.Answer.{judged, frame_words, parse_block-judged}
use fit_fred.Tests.Fixtures.{platform, board, fifo, handler}

abbrev frame : SwtFrame
frame = record { prefix = 0; address = 32; word = 3735928559 }

frame-IsFrame : IsFrame frame
frame-IsFrame = record {
  prefix_fits = omega arith;
  address_fits = omega arith;
  word_fits = omega arith;
}

lines-joined_example :
    lines (success_text ++ joined true (write_reply 48 ∷ read_reply frame ∷ []))
    ≡ (kept true (write_reply 48 ∷ read_reply frame ∷ []), none)
lines-joined_example =
    lines-joined true (write_reply 48 ∷ read_reply frame ∷ [])
      ((omega arith, omega arith), (frame-IsFrame, tt))

lines-ends_example : (lines (codes "success\n0\n0x")).1 ≢ some too_few_rounds
lines-ends_example = lines-ends (codes "success\n0\n0x")

abbrev answer : Bytes
answer = codes "success\n0x00000000020DEADBEEF\n0x00000000020000000FF\n0x00000000020000000AA\n"

fifo_is_found : find fifo.name board.parameters ≡ some fifo
unfolding find
fifo_is_found = refl

answer_is_read : (lines answer).1 ≡ none
unfolding lines swt_frame string_to_byte char_to_hex
answer_is_read = refl

fifo_rows-IsFilled_example :
    (rows : RowList) × (fifo_rows board fifo answer ≡ ok rows)
    × IsFilled 2 rows
    × (concat rows.0 ++ rows.1 ≡ decoded fifo (lines answer).0)
fifo_rows-IsFilled_example =
    fifo_rows-IsFilled board fifo answer fifo_is_found (omega arith) answer_is_read

answer_is_successful : is_success answer ≡ true
unfolding is_success
answer_is_successful = refl

parse_block-judged_example : parse_block 3 answer ≡ ok (judged 3 (frame_words (lines answer).0))
parse_block-judged_example = parse_block-judged 3 answer answer_is_successful answer_is_read

process_message_from_wincc-IsConsistent_example :
    IsConsistent
      (process_message_from_wincc platform handler (codes "DELAY,WRITE,5\nLEVEL,WRITE,7") true).0
process_message_from_wincc-IsConsistent_example =
    process_message_from_wincc-IsConsistent platform handler (codes "DELAY,WRITE,5\nLEVEL,WRITE,7")
      true
