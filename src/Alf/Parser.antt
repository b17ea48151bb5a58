-- ===== src/Alf/Parser.antt =====
-- `AlfResponseParser`, its lines and its iterator. The text is a C string: a read behind its end
-- gives a zero byte. The iterator's address is its offset in the text.
pub mod Reply
mod Steps
pub mod RoundTrip
pub mod Termination
use fit_fred.Common.{
  ℕ, zero, suc, ◌+◌, ◌-◌, ◌≤◌, ◌<◌, ◌≡◌, refl, arith, Fallible, ok, err, ◌>>=◌, ◌>>◌, throw_if,
  Bytes, codes, [], ◌∷◌, ◌++◌, drop, length, Option, none, some, List, ◌==◌, ltb, if◌then◌else◌,
  Bool, true, false, ◌&&◌, ◌||◌, bytes_eq, take, not,
}
use fit_fred.Alf.Hex.{
  char_to_hex, string_to_byte, ParseError, invalid_line, out_of_range, iterator_points_to_end,
  no_current_line, too_few_rounds,
}
use fit_fred.Alf.Frame.{SwtFrame, swt_frame, peek}

abbrev pub success_text : Bytes
success_text = codes "success\n"

abbrev pub failure_text : Bytes
failure_text = codes "failure\n"

abbrev swt_len : ℕ
swt_len = 21

-- The frame is set only in a response to a read.
pub data LineType : Type 0 where
  response_to_read : SwtFrame → LineType
  response_to_write : LineType

pub record Line : Type 0 where
  pub type : LineType
  pub length : ℕ

pub make_line : Bytes → ℕ → Fallible ParseError Line
make_line hex len =
    if len == 1
    then ok (record { type = response_to_write; length = len })
    else if len == swt_len
    then (do
      frame ← swt_frame (drop 2 hex)
      ok (record { type = response_to_read frame; length = len }))
    else err (invalid_line len)

pub record Iterator : Type 0 where
  pub offset : ℕ
  pub sequence : Bytes
  pub current_line : Option Line

-- `getLineLen`: up to the next new line or zero byte.
pub get_line_len : Bytes → ℕ
get_line_len [] = 0
get_line_len (c ∷ s) = if c == 0 || c == b'\n' then 0 else suc (get_line_len s)

-- `m_sequence.at(0)`.
pub at_front : Bytes → Fallible ParseError ℕ
at_front [] = err out_of_range
at_front (c ∷ s) = ok c

pub iterator : ℕ → Bytes → Fallible ParseError Iterator
unfolding make_line get_line_len at_front
iterator offset s = do
  c ← at_front s
  if c == 0 || c == b'\n'
      then ok (record { offset = offset; sequence = s; current_line = none })
      else (do
        line ← make_line s (get_line_len s)
        ok (record { offset = offset; sequence = s; current_line = some line }))

-- `operator++`, with the current line taken out of the iterator.
pub advance : Iterator → Line → Fallible ParseError Iterator
unfolding make_line get_line_len
advance it line =
    let s = it.sequence in
    if not (peek s line.length == 0) && not (peek s (line.length + 1) == 0)
    then (do
      let rest = drop (line.length + 1) s
      next ← make_line rest (get_line_len rest)
      ok (record {
        offset = it.offset + (line.length + 1);
        sequence = rest;
        current_line = some next;
      }))
    else (let shift = if peek s line.length == 0 then line.length - 1 else line.length in
        ok (record { offset = it.offset + shift; sequence = drop shift s; current_line = none }))

pub increment : Iterator → Fallible ParseError Iterator
unfolding at_front advance
increment it = do
  c ← at_front it.sequence
  throw_if (c == 0) iterator_points_to_end
  elim it.current_line [ none ↦ err no_current_line | some line ↦ advance it line ]

-- `operator*`.
pub current : Iterator → Fallible ParseError Line
current it = elim it.current_line [ none ↦ err iterator_points_to_end | some line ↦ ok line ]

unfoldable pub is_success : Bytes → Bool
is_success text = bytes_eq (take 8 text) success_text

-- `iterator(m_sequence.data() + m_sequence.size() - 1)`, for a text without a byte 0. The source makes a
-- string that ends before a byte 0 of the pointer, and is refused if the last byte of the text is 0.
pub end : Bytes → Fallible ParseError Iterator
unfolding iterator
end text = iterator (length text - 1) (drop (length text - 1) text)

-- `substr(8)` throws behind the end of the text.
pub begin : Bytes → Fallible ParseError Iterator
unfolding end iterator
begin text =
    if bytes_eq text success_text || bytes_eq text failure_text
    then end text
    else (if ltb (length text) 8 then err out_of_range else iterator 8 (drop 8 text))

-- What a loop `for (auto line : parser)` sees: its lines, and the exception that ended it.
abbrev pub Seen : Type 0
Seen = List Line × Option ParseError

after_line : Line → Seen → Seen
after_line line (lines, error) = (line ∷ lines, error)

-- One round: compare with the end, dereference, run the body, increment.
pub loop : ℕ → Iterator → ℕ → Seen
unfolding current increment after_line
loop zero it last = ([], some too_few_rounds)
loop (suc rounds) it last = elim (it.offset == last) [
  | true ↦ ([], none)
  | false ↦ elim (current it) [
    | err e ↦ ([], some e)
    | ok line ↦ elim (increment it) [
      | err e ↦ (line ∷ [], some e)
      | ok next ↦ after_line line (loop rounds next last)
    ]
  ]
]

unfoldable pub lines : Bytes → Seen
unfolding loop begin end
lines text = elim (begin text) [
  | err e ↦ ([], some e)
  | ok first ↦ elim (end text) [
    | err e ↦ ([], some e)
    | ok last ↦ loop (suc (length text)) first last.offset
  ]
]

two_lines : lines (codes "success\n0\n0x00000000000ffffffff\n") ≡ (
  record { type = response_to_write; length = 1 }
      ∷ record {
        type = response_to_read (record { prefix = 0; address = 0; word = 0xffffffff });
        length = 21;
      }
      ∷ [],
  none,
)
unfolding lines swt_frame string_to_byte char_to_hex
two_lines = refl
