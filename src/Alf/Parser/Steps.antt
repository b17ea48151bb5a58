-- ===== src/Alf/Parser/Steps.antt =====
-- The rounds of the parser's loop on a well-formed answer.
use native.Mathlib.Numerals.{add-one}
use fit_fred.Common.{
  ℕ, suc, ◌+◌, ◌-◌, ◌≡◌, ◌≢◌, refl, arith, ok, Bytes, [], ◌∷◌, ◌++◌, drop, length, none, some, List,
  Bool, true, false, length-append, append-nil, ◌∙◌,
}
use fit_fred.Alf.Frame.{peek}
use fit_fred.Alf.Parser.Reply.{
  Reply, read_reply, write_reply, reply_text, reply_line, InLine, IsReply, final, joined,
  length-reply_text, make_line-reply_text, reply_text-InLine, get_line_len-append,
  get_line_len_whole,
}
use fit_fred.Alf.Parser.{Iterator, make_line, get_line_len, advance, increment, loop}

-- Reads at and behind the end of a line.
pub peek_end : (w rest : Bytes) → peek (w ++ rest) (length w) ≡ peek rest 0
peek_end [] rest = refl
peek_end (c ∷ w) rest = peek_end w rest

pub peek_after : (w rest : Bytes) (c : ℕ) → peek (w ++ (c ∷ rest)) (suc (length w)) ≡ peek rest 0
peek_after [] rest c = refl
peek_after (d ∷ w) rest c = peek_after w rest c

pub peek_behind : (w : Bytes) → peek w (length w) ≡ 0
peek_behind [] = refl
peek_behind (c ∷ w) = peek_behind w

pub drop_line : (w rest : Bytes) (c : ℕ) → drop (suc (length w)) (w ++ (c ∷ rest)) ≡ rest
drop_line [] rest c = refl
drop_line (d ∷ w) rest c = drop_line w rest c

-- The iterator that stands on the first line of a text.
abbrev pub standing : ℕ → Bytes → Reply → Iterator
standing offset s r = record { offset = offset; sequence = s; current_line = some (reply_line r) }

pub peek-joined :
    (ended : Bool) (r : Reply) (rs : List Reply)
    → IsReply r
    → InLine (peek (joined ended (r ∷ rs)) 0)
peek-joined ended (read_reply f) [] v = omega arith
peek-joined ended (write_reply c) [] v = v
peek-joined ended (read_reply f) (q ∷ rs) v = omega arith
peek-joined ended (write_reply c) (q ∷ rs) v = v

pub get_line_len-joined :
    (ended : Bool) (r : Reply) (rs : List Reply)
    → IsReply r
    → get_line_len (joined ended (r ∷ rs)) ≡ (reply_line r).length
get_line_len-joined true r [] v =
    get_line_len-append (reply_text r) [] (reply_text-InLine r v) ∙ length-reply_text r
get_line_len-joined false r [] v =
    rw append-nil (get_line_len_whole (reply_text r) (reply_text-InLine r v) ∙ length-reply_text r)
get_line_len-joined ended r (q ∷ rs) v =
    get_line_len-append (reply_text r) _ (reply_text-InLine r v) ∙ length-reply_text r

pub make_line-joined :
    (ended : Bool) (r : Reply) (rs : List Reply)
    → IsReply r
    → make_line (joined ended (r ∷ rs)) (get_line_len (joined ended (r ∷ rs))) ≡ ok (reply_line r)
make_line-joined ended r [] v =
    rw (get_line_len-joined ended r [] v) (make_line-reply_text r (final ended) v)
make_line-joined ended r (q ∷ rs) v =
    rw (get_line_len-joined ended r (q ∷ rs) v) (make_line-reply_text r _ v)

-- `operator++` before a further line.
pub advance-more :
    (offset : ℕ) (ended : Bool) (r q : Reply) (rs : List Reply)
    → IsReply r
    → IsReply q
    → advance (standing offset (joined ended (r ∷ q ∷ rs)) r) (reply_line r)
      ≡ ok (standing (offset + ((reply_line r).length + 1)) (joined ended (q ∷ rs)) q)
unfolding advance
advance-more offset ended r q rs v w =
    let rest = joined ended (q ∷ rs) in
    rw
      (
        ← length-reply_text r,
        add-one,
        peek_end (reply_text r) (b'\n' ∷ rest),
        peek_after (reply_text r) rest b'\n',
        drop_line (reply_text r) rest b'\n',
        make_line-joined ended q rs w,
      )
      (ground (arith, peek-joined ended q rs w))

-- The iterator that stands on the last byte of a text, with no line.
abbrev pub at_end : ℕ → Bytes → Iterator
at_end offset s = record {
  offset = offset + (length s - 1);
  sequence = drop (length s - 1) s;
  current_line = none;
}

-- `operator++` on the last line stops there.
pub advance-last :
    (offset : ℕ) (ended : Bool) (r : Reply)
    → advance (standing offset (joined ended (r ∷ [])) r) (reply_line r)
      ≡ ok (at_end offset (joined ended (r ∷ [])))
unfolding advance
advance-last offset true r =
    let whole : length (reply_text r ++ b'\n' ∷ []) - 1 ≡ length (reply_text r) =
      omega (arith, length-append (reply_text r) (b'\n' ∷ [])) in
    rw (
      whole,
      ← length-reply_text r,
      add-one,
      peek_end (reply_text r) (b'\n' ∷ []),
      peek_after (reply_text r) [] b'\n',
    )
advance-last offset false r = rw (append-nil, ← length-reply_text r, peek_behind (reply_text r))

pub increment-standing :
    (offset : ℕ) (s : Bytes) (r : Reply)
    → InLine (peek s 0)
    → increment (standing offset s r) ≡ advance (standing offset s r) (reply_line r)
unfolding increment
increment-standing offset [] r v = absurd (v.0 refl)
increment-standing offset (c ∷ s) r v = ground arith

-- One round of the loop.
pub loop_stop :
    (rounds : ℕ) (it : Iterator) (last : ℕ)
    → it.offset ≡ last
    → loop (suc rounds) it last ≡ ([], none)
unfolding loop
loop_stop rounds it last h = ground arith

pub loop_more :
    (rounds offset : ℕ) (s : Bytes) (r : Reply) (next : Iterator) (last : ℕ)
    → offset ≢ last
    → InLine (peek s 0)
    → advance (standing offset s r) (reply_line r) ≡ ok next
    → loop (suc rounds) (standing offset s r) last
      ≡ ((reply_line r ∷ (loop rounds next last).0), (loop rounds next last).1)
unfolding loop
loop_more rounds offset s r next last h v e = ground (arith, increment-standing offset s r v)
