-- ===== src/Alf/Parser/Termination.antt =====
-- The parser's loop ends on every text.
use fit_fred.Common.{
  ℕ, zero, suc, ◌+◌, ◌-◌, ◌<◌, ◌≡◌, ◌≢◌, refl, arith, Fallible, ok, err, ◌>>=◌, Fallible-cases,
  Bool-cases, Bytes, [], ◌∷◌, drop, length, Option, none, some, ◌⊎◌, inl, inr, ap, ◌==◌,
  if◌then◌else◌, Bool, true, false, ◌&&◌, ◌||◌, bytes_eq, bytes_eq→, ltb, not, Option-cases,
}
use fit_fred.Alf.Hex.{ParseError, too_few_rounds, out_of_range, char_to_hex, string_to_byte}
use fit_fred.Alf.Frame.{swt_frame, peek}
use fit_fred.Alf.Parser.{
  Line, Iterator, make_line, get_line_len, advance, increment, iterator, begin, end, loop, lines,
  success_text, failure_text,
}

-- The call does not run out of rounds.
abbrev InTime : {A : Type 0} → Fallible ParseError A → Type 0
InTime r = r ≢ err too_few_rounds

>>=-InTime :
    {A B : Type 0} (m : Fallible ParseError A) (f : A → Fallible ParseError B)
    → InTime m
    → ((a : A) → InTime (f a))
    → InTime (m >>= f)
>>=-InTime (ok a) f hm hf = hf a
>>=-InTime (err e) f hm hf = λ h. hm (cc)

ok-InTime : {A : Type 0} (a : A) → InTime (ok a)
ok-InTime a = λ h. cc

char_to_hex-InTime : (c : ℕ) → InTime (char_to_hex c)
unfolding char_to_hex
char_to_hex-InTime c = ground arith

string_to_byte-InTime : (c d : ℕ) → InTime (string_to_byte c d)
unfolding string_to_byte
string_to_byte-InTime c d = ground (arith, char_to_hex-InTime c, char_to_hex-InTime d)

swt_frame-InTime : (s : Bytes) → InTime (swt_frame s)
unfolding swt_frame
swt_frame-InTime s = search (>>=-InTime, string_to_byte-InTime, ok-InTime) depth 12

make_line-InTime : (s : Bytes) (n : ℕ) → InTime (make_line s n)
unfolding make_line
make_line-InTime s n = ground (arith, swt_frame-InTime (drop 2 s))

length-drop : (n : ℕ) (s : Bytes) → length (drop n s) ≡ length s - n
length-drop zero s = omega arith
length-drop (suc n) [] = omega arith
length-drop (suc n) (c ∷ s) = omega (arith, length-drop n s)

-- The call does not run out of rounds, and an iterator that it returns has less text to read than
-- `n` bytes, or no line.
abbrev Shrinks : ℕ → Fallible ParseError Iterator → Type 0
Shrinks n (ok it) = (length it.sequence < n) ⊎ (it.current_line ≡ none)
Shrinks n (err e) = e ≢ too_few_rounds

make_line-Shrinks :
    (n offset : ℕ) (s : Bytes) (m : Fallible ParseError Line)
    → length s < n
    → InTime m
    → Shrinks n
        (m >>= λ line. ok (record { offset = offset; sequence = s; current_line = some line }))
make_line-Shrinks n offset s (ok line) h t = inl h
make_line-Shrinks n offset s (err e) h t = λ q. t (ap err q)

length-drop-lt : (n : ℕ) (s : Bytes) → peek s n ≢ 0 → length (drop (n + 1) s) < length s
length-drop-lt n [] h = absurd (h refl)
length-drop-lt zero (c ∷ s) h = omega (arith, length-drop 0 s)
length-drop-lt (suc n) (c ∷ s) h =
    let e : suc n + 1 ≡ suc (n + 1) = omega arith in rw e (omega (arith, length-drop-lt n s h))

advance-Shrinks : (it : Iterator) (line : Line) → Shrinks (length it.sequence) (advance it line)
unfolding advance
advance-Shrinks it line =
    elim (Bool-cases
      (not (peek it.sequence line.length == 0) && not (peek it.sequence (line.length + 1) == 0))) [
        | inl more ↦
            let rest = drop (line.length + 1) it.sequence in
            rw (advance, more)
              (make_line-Shrinks (length it.sequence) (it.offset + (line.length + 1)) rest
                (make_line rest (get_line_len rest))
                (length-drop-lt line.length it.sequence (ground arith))
                (make_line-InTime rest (get_line_len rest)))
        | inr stop ↦ rw (advance, stop) (inr refl)
      ]

increment-Shrinks :
    (offset : ℕ) (s : Bytes) (line : Option Line)
    → Shrinks (length s) (increment (record { offset = offset; sequence = s; current_line = line }))
unfolding increment
increment-Shrinks offset [] line = λ h. cc
increment-Shrinks offset (c ∷ s) none = elim (Bool-cases (c == 0)) [
  | inl zero_byte ↦ rw (increment, zero_byte) (λ h. cc)
  | inr other ↦ rw (increment, other) (λ h. cc)
]
increment-Shrinks offset (c ∷ s) (some line) = elim (Bool-cases (c == 0)) [
  | inl zero_byte ↦ rw (increment, zero_byte) (λ h. cc)
  | inr other ↦
      rw (increment, other)
        (advance-Shrinks (record { offset = offset; sequence = c ∷ s; current_line = some line })
          line)
]

-- The rounds left suffice.
abbrev Suffices : ℕ → Iterator → Type 0
Suffices rounds it = (length it.sequence + 1 < rounds) ⊎ ((it.current_line ≡ none) × (0 < rounds))

-- One round, if the rest of the rounds suffice for every iterator that shrank.
loop_round :
    (rounds : ℕ) (it : Iterator) (last : ℕ) (line : Line) (next : Fallible ParseError Iterator)
    → it.current_line ≡ some line
    → increment it ≡ next
    → Shrinks (length it.sequence) next
    → Suffices (suc rounds) it
    → ((rest : Iterator) → Suffices rounds rest → (loop rounds rest last).1 ≢ some too_few_rounds)
    → (loop (suc rounds) it last).1 ≢ some too_few_rounds
unfolding loop
loop_round rounds it last line (err e) l q t h more = ground arith
loop_round rounds it last line (ok rest) l q t h more = ground (arith, more rest)

loop-ends :
    (rounds : ℕ) (it : Iterator) (last : ℕ)
    → Suffices rounds it
    → (loop rounds it last).1 ≢ some too_few_rounds
unfolding loop
loop-ends zero it last h = absurd (omega arith)
loop-ends (suc rounds) it last h = elim (Option-cases it.current_line) [
  | inl no_line ↦ ground arith
  | inr (line, e) ↦
      loop_round rounds it last line (increment it) e refl
        (increment-Shrinks it.offset it.sequence it.current_line) h
        (λ rest fits. loop-ends rounds rest last fits)
]

-- The call is in time, and the iterator that it returns has fewer than `n` bytes to read.
abbrev Begins : ℕ → Fallible ParseError Iterator → Type 0
Begins n (ok it) = length it.sequence < n
Begins n (err e) = e ≢ too_few_rounds

if-Begins :
    (n : ℕ) (b : Bool) (x y : Fallible ParseError Iterator)
    → (b ≡ true → Begins n x)
    → (b ≡ false → Begins n y)
    → Begins n (if b then x else y)
if-Begins n true x y hx hy = hx refl
if-Begins n false x y hx hy = hy refl

line-Begins :
    (n offset : ℕ) (s : Bytes) (m : Fallible ParseError Line)
    → length s < n
    → InTime m
    → Begins n
        (m >>= λ line. ok (record { offset = offset; sequence = s; current_line = some line }))
line-Begins n offset s (ok line) h t = h
line-Begins n offset s (err e) h t = λ q. t (ap err q)

iterator-Begins : (n offset : ℕ) (s : Bytes) → length s < n → Begins n (iterator offset s)
unfolding iterator
iterator-Begins n offset [] h = λ e. cc
iterator-Begins n offset (c ∷ s) h =
    if-Begins n (c == 0 || c == b'\n')
      (ok (record { offset = offset; sequence = c ∷ s; current_line = none })) _ (λ _. h)
      (λ _.
        line-Begins n offset (c ∷ s) (make_line (c ∷ s) (get_line_len (c ∷ s))) h
          (make_line-InTime (c ∷ s) (get_line_len (c ∷ s))))

Begins-InTime : (n : ℕ) (m : Fallible ParseError Iterator) → Begins n m → InTime m
Begins-InTime n (ok it) h = λ e. cc
Begins-InTime n (err x) h = λ e. h (cc)

end-Begins : (text : Bytes) → Begins (suc (length text)) (end text)
unfolding end
end-Begins text =
    iterator-Begins (suc (length text)) (length text - 1) (drop (length text - 1) text)
      (omega (arith, length-drop (length text - 1) text))

or-true : (a b : Bool) → a || b ≡ true → (a ≡ true) ⊎ (b ≡ true)
or-true true b h = inl refl
or-true false b h = inr h

length_of_status :
    (t : Bytes) → bytes_eq t success_text || bytes_eq t failure_text ≡ true → length t ≡ 8
length_of_status t e = elim (or-true (bytes_eq t success_text) (bytes_eq t failure_text) e) [
  | inl h ↦ ap length (bytes_eq→ t success_text h)
  | inr h ↦ ap length (bytes_eq→ t failure_text h)
]

begin-Begins : (text : Bytes) → Begins (length text) (begin text)
unfolding begin end
begin-Begins text =
    if-Begins (length text) (bytes_eq text success_text || bytes_eq text failure_text) (end text) _
      (λ e.
        iterator-Begins (length text) (length text - 1) (drop (length text - 1) text)
          (omega (arith, length_of_status text e, length-drop (length text - 1) text)))
      (λ _.
        if-Begins (length text) (ltb (length text) 8) (err out_of_range) (iterator 8 (drop 8 text))
          (λ _ q. cc)
          (λ long.
            iterator-Begins (length text) 8 (drop 8 text) (ground (arith, length-drop 8 text))))

-- Whatever text ALF answers with, the loop over its lines ends by itself: it reaches the end of the
-- text or an exception ends it.
pub lines-ends : (text : Bytes) → (lines text).1 ≢ some too_few_rounds
unfolding lines
lines-ends text = elim (Fallible-cases (begin text)) [
  | inl (first, b) ↦ elim (Fallible-cases (end text)) [
    | inl (last, e) ↦
        let short : length first.sequence < length text = rw b at (begin-Begins text) in
        let done = loop-ends (suc (length text)) first last.offset (inl (omega arith)) in
        ground (arith, done)
    | inr (x, e) ↦ let known : x ≢ too_few_rounds = rw e at (end-Begins text) in ground arith
  ]
  | inr (x, b) ↦ let known : x ≢ too_few_rounds = rw b at (begin-Begins text) in ground arith
]
