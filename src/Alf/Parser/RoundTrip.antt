-- ===== src/Alf/Parser/RoundTrip.antt =====
-- What the parser's loop sees of a well-formed answer.
use fit_fred.Common.{
  ℕ, zero, suc, ◌+◌, ◌-◌, ◌<◌, ◌≡◌, refl, arith, ok, Bool-cases, ◌||◌, Bytes, [], ◌∷◌, ◌++◌, drop,
  length, none, inl, inr, List, ◌==◌, Bool, true, false, All, length-append, ◌∙◌,
}
use fit_fred.Alf.Frame.{peek}
use fit_fred.Alf.Parser.Reply.{
  Reply, read_reply, write_reply, reply_text, reply_line, InLine, IsReply, joined, kept,
  length-reply_text,
}
use fit_fred.Alf.Parser.Steps.{
  standing, at_end, peek-joined, make_line-joined, advance-more, advance-last, loop_stop, loop_more,
}
use fit_fred.Alf.Parser.{
  begin, end, iterator, Iterator, make_line, get_line_len, loop, lines, success_text,
}

joined-pos : (ended : Bool) (r : Reply) (rs : List Reply) → 0 < length (joined ended (r ∷ rs))
joined-pos ended (read_reply f) [] = omega arith
joined-pos ended (write_reply c) [] = omega arith
joined-pos ended (read_reply f) (q ∷ rs) = omega arith
joined-pos ended (write_reply c) (q ∷ rs) = omega arith

reply_line_pos : (r : Reply) → 0 < (reply_line r).length
reply_line_pos (read_reply f) = omega arith
reply_line_pos (write_reply c) = omega arith

seen_once :
    (rounds offset : ℕ) (ended : Bool) (r : Reply)
    → IsReply r
    → 1 < length (joined ended (r ∷ []))
    → loop
        (suc (suc rounds))
        (standing offset (joined ended (r ∷ [])) r)
        (offset + (length (joined ended (r ∷ [])) - 1))
      ≡ (reply_line r ∷ [], none)
seen_once rounds offset ended r v h =
    let s = joined ended (r ∷ []) in
    let last = offset + (length s - 1) in
    loop_more (suc rounds) offset s r (at_end offset s) last (omega arith)
      (peek-joined ended r [] v) (advance-last offset ended r)
    ∙ rw (loop_stop rounds (at_end offset s) last refl)

-- The last line: seen, unless it is one byte with nothing behind it.
single :
    (rounds offset : ℕ) (ended : Bool) (r : Reply)
    → IsReply r
    → length (joined ended (r ∷ [])) < suc rounds
    → loop
        (suc rounds)
        (standing offset (joined ended (r ∷ [])) r)
        (offset + (length (joined ended (r ∷ [])) - 1))
      ≡ (kept ended (r ∷ []), none)
single rounds offset false (write_reply c) v h = loop_stop rounds _ _ (omega arith)
single (suc rounds) offset false (read_reply f) v h =
    seen_once rounds offset false (read_reply f) v (omega arith)
single (suc rounds) offset true r v h = seen_once rounds offset true r v (
    omega (arith, length-append (reply_text r) (b'\n' ∷ []), length-reply_text r, reply_line_pos r))
single zero offset false (read_reply f) v h = absurd (omega arith)
single zero offset true r v h = absurd (omega (arith, joined-pos true r []))

-- The loop from a line on, with enough rounds.
loop-standing :
    (rounds offset : ℕ) (ended : Bool) (r : Reply) (rs : List Reply)
    → All IsReply (r ∷ rs)
    → length (joined ended (r ∷ rs)) < rounds
    → loop rounds
        (standing offset (joined ended (r ∷ rs)) r)
        (offset + (length (joined ended (r ∷ rs)) - 1))
      ≡ (kept ended (r ∷ rs), none)
loop-standing zero offset ended r rs v h = absurd (omega arith)
loop-standing (suc rounds) offset ended r [] v h = single rounds offset ended r v.0 h
loop-standing (suc rounds) offset ended r (q ∷ rs) v h =
    let rest = joined ended (q ∷ rs) in
    let l = (reply_line r).length in
    let last = offset + (length (joined ended (r ∷ q ∷ rs)) - 1) in
    let total : length (joined ended (r ∷ q ∷ rs)) ≡ l + suc (length rest) =
      omega (arith, length-append (reply_text r) (b'\n' ∷ rest), length-reply_text r) in
    let some_byte : 0 < length rest = joined-pos ended q rs in
    let same : last ≡ offset + (l + 1) + (length rest - 1) = omega arith in
    loop_more rounds offset (joined ended (r ∷ q ∷ rs)) r _ last (omega arith)
      (peek-joined ended r (q ∷ rs) v.0) (advance-more offset ended r q rs v.0 v.1.0)
    ∙ rw (same, loop-standing rounds (offset + (l + 1)) ended q rs v.1 (omega arith))

last_byte : (c : ℕ) (s : Bytes) → (d : ℕ) × (drop (length s) (c ∷ s) ≡ d ∷ [])
last_byte c [] = (c, refl)
last_byte c (d ∷ s) = last_byte d s

-- The end of a text that is not empty can always be pointed at, whatever its last byte is.
iterator_one_byte :
    (offset c : ℕ) → (it : Iterator) × (iterator offset (c ∷ []) ≡ ok it) × (it.offset ≡ offset)
unfolding iterator
iterator_one_byte offset c = elim (Bool-cases (c == 0 || c == b'\n')) [
  | inl stop ↦ (
    record { offset = offset; sequence = c ∷ []; current_line = none },
    rw (iterator, stop),
    refl,
  )
  | inr go ↦ (standing offset (c ∷ []) (write_reply c), rw (iterator, go), refl)
]

end_lem : (c : ℕ) (s : Bytes) → (it : Iterator) × (end (c ∷ s) ≡ ok it) × (it.offset ≡ length s)
unfolding end
end_lem c s =
    let (d, only) = last_byte c s in
    let (it, made, at) = iterator_one_byte (length s) d in
    let e : suc (length s) - 1 ≡ length s = omega arith in (it, rw (e, only) made, at)

iterator-joined :
    (offset : ℕ) (ended : Bool) (r : Reply) (rs : List Reply)
    → IsReply r
    → iterator offset (joined ended (r ∷ rs)) ≡ ok (standing offset (joined ended (r ∷ rs)) r)
iterator-joined offset ended r rs v =
    iterator_lem offset (joined ended (r ∷ rs)) r (peek-joined ended r rs v)
      (make_line-joined ended r rs v)
  where
    iterator_lem :
        (o : ℕ) (s : Bytes) (q : Reply)
        → InLine (peek s 0)
        → make_line s (get_line_len s) ≡ ok (reply_line q)
        → iterator o s ≡ ok (standing o s q)
    iterator_lem o [] q h e = absurd (h.0 refl)
    iterator_lem o (c ∷ s) q h e = unfold iterator in ground arith

begin_lem : (s : Bytes) → 0 < length s → begin (success_text ++ s) ≡ iterator 8 s
unfolding begin
begin_lem [] h = absurd (omega arith)
begin_lem (c ∷ s) h = ground arith

offset_of_last : (s : Bytes) → 0 < length s → length (drop 1 success_text ++ s) ≡ 8 + (length s - 1)
offset_of_last s h = omega arith

lines_by_loop :
    (text : Bytes) (first last : Iterator)
    → begin text ≡ ok first
    → end text ≡ ok last
    → lines text ≡ loop (suc (length text)) first last.offset
unfolding lines
lines_by_loop text first last b e = ground arith

-- A successful answer of well-formed lines is read line by line without an error, and the loop comes
-- to its end. Each line gives the frame or the write response that was sent; only a response to a
-- write that stands last, with no new line behind it, is passed over.
pub lines-joined :
    (ended : Bool) (rs : List Reply)
    → All IsReply rs
    → lines (success_text ++ joined ended rs) ≡ (kept ended rs, none)
unfolding lines
lines-joined ended [] v = refl
lines-joined ended (r ∷ rs) v =
    let s = joined ended (r ∷ rs) in
    let (last, made, at) = end_lem b's' (drop 1 success_text ++ s) in
    let first = begin_lem s (joined-pos ended r rs) ∙ iterator-joined 8 ended r rs v.0 in
    lines_by_loop (success_text ++ s) (standing 8 s r) last first made
    ∙ rw (at, offset_of_last s (joined-pos ended r rs))
        (loop-standing (suc (suc (8 + (length s - 1)))) 8 ended r rs v (omega arith))
