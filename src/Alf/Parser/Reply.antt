-- ===== src/Alf/Parser/Reply.antt =====
-- Well-formed answers of ALF, and how each of their lines is read.
use fit_fred.Common.{
  ℕ, ◌≡◌, ◌≢◌, refl, arith, ok, Bytes, codes, [], ◌∷◌, ◌++◌, length, List, ◌==◌, if◌then◌else◌,
  Bool, true, false, ◌&&◌, All, not,
}
use fit_fred.Swt.Hex.{word_to_hex}
use fit_fred.Alf.Hex.{half_byte_to_hex_printable}
use fit_fred.Alf.Frame.{SwtFrame, IsFrame, frame_text, swt_frame-frame_text}
use fit_fred.Alf.Parser.{Line, response_to_read, response_to_write, make_line, get_line_len}

-- A line of an answer: the frame that was read, or the one byte that answers a write.
pub data Reply : Type 0 where
  read_reply : SwtFrame → Reply
  write_reply : ℕ → Reply

abbrev pub reply_text : Reply → Bytes
reply_text (read_reply f) = codes "0x" ++ frame_text f
reply_text (write_reply c) = c ∷ []

abbrev pub reply_line : Reply → Line
reply_line (read_reply f) = record { type = response_to_read f; length = 21 }
reply_line (write_reply c) = record { type = response_to_write; length = 1 }

-- Neither a zero byte nor a new line.
abbrev pub InLine : ℕ → Type 0
InLine c = (c ≢ 0) × (c ≢ b'\n')

abbrev pub IsReply : Reply → Type 0
IsReply (read_reply f) = IsFrame f
IsReply (write_reply c) = InLine c

-- What stands behind the last line: the answer may end with a new line or without.
abbrev pub final : Bool → Bytes
final true = b'\n' ∷ []
final false = []

-- The lines of an answer, with a new line between two of them.
abbrev pub joined : Bool → List Reply → Bytes
joined ended [] = []
joined ended (r ∷ []) = reply_text r ++ final ended
joined ended (r ∷ q ∷ rs) = reply_text r ++ (b'\n' ∷ joined ended (q ∷ rs))

-- All lines, but for a final response to a write that no new line ends.
abbrev pub kept : Bool → List Reply → List Line
kept ended [] = []
kept ended (r ∷ []) = if not ended && ((reply_line r).length == 1) then [] else reply_line r ∷ []
kept ended (r ∷ q ∷ rs) = reply_line r ∷ kept ended (q ∷ rs)

pub length-reply_text : (r : Reply) → length (reply_text r) ≡ (reply_line r).length
unfolding word_to_hex
length-reply_text (read_reply f) = refl
length-reply_text (write_reply c) = refl

pub make_line-reply_text :
    (r : Reply) (rest : Bytes)
    → IsReply r
    → make_line (reply_text r ++ rest) (reply_line r).length ≡ ok (reply_line r)
unfolding make_line
make_line-reply_text (read_reply f) rest v = ground (arith, swt_frame-frame_text f rest v)
make_line-reply_text (write_reply c) rest v = refl

pub reply_text-InLine : (r : Reply) → IsReply r → All InLine (reply_text r)
unfolding word_to_hex
reply_text-InLine (read_reply f) v = omega (arith, half_byte_to_hex_printable)
reply_text-InLine (write_reply c) v = (v, tt)

pub get_line_len-append :
    (w rest : Bytes) → All InLine w → get_line_len (w ++ (b'\n' ∷ rest)) ≡ length w
unfolding get_line_len
get_line_len-append [] rest v = refl
get_line_len-append (c ∷ w) rest v = ground (arith, get_line_len-append w rest v.1)

pub get_line_len_whole : (w : Bytes) → All InLine w → get_line_len w ≡ length w
unfolding get_line_len
get_line_len_whole [] v = refl
get_line_len_whole (c ∷ w) v = ground (arith, get_line_len_whole w v.1)
