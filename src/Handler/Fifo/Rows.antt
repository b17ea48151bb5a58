-- ===== src/Handler/Fifo/Rows.antt =====
-- The rows that `parseFifo` builds.
use fit_fred.Common.{
  ℕ, ◌≤◌, ◌≡◌, refl, sym, arith, ok, Bytes, [], ◌∷◌, ◌++◌, none, some, List, length, length-append,
  ◌==◌, ==_iff, All, All-append, append_assoc, append-nil, Bool-cases, ◌⊎◌, inl, inr,
}
use fit_fred.Common.Int.{to_u32}
use fit_fred.Alf.Frame.{SwtFrame}
use fit_fred.Alf.Parser.{LineType, Line, response_to_read, response_to_write, lines}
use fit_fred.Board.Defs.{Board, ParameterInfo, find, parse_electronic, value_of_code, field_of}
use fit_fred.Handler.Fifo.{RowList, push_word, collect_words, fifo_rows}

-- The values of the words that were read, in the order of the lines.
abbrev pub decoded : {Double : Type 0} → ParameterInfo Double → List Line → List ℕ
decoded info [] = []
decoded info (line ∷ rest) = elim line.type [
  | response_to_write ↦ decoded info rest
  | response_to_read frame ↦
      to_u32 (value_of_code info (field_of info frame.word)) ∷ decoded info rest
]

abbrev pub concat : List (List ℕ) → List ℕ
concat [] = []
concat (row ∷ rows) = row ++ concat rows

concat-append :
    (rows : List (List ℕ)) (row : List ℕ) → concat (rows ++ (row ∷ [])) ≡ concat rows ++ row
concat-append [] row = append-nil row
concat-append (r ∷ rows) row = rw (concat-append rows row) (sym (append_assoc r (concat rows) row))

-- Full rows of `n` words, and a last one of at most `n`.
pub record IsFilled (n : ℕ) (rows : RowList) : Type 0 where
  pub full : All (λ (row : List ℕ). length row ≡ n) rows.0
  pub last : length rows.1 ≤ n

push_word-IsFilled :
    (n : ℕ) (rows : RowList) (word : ℕ)
    → 1 ≤ n
    → IsFilled n rows
    → IsFilled n (push_word n rows word)
      × (concat (push_word n rows word).0 ++ (push_word n rows word).1
          ≡ (concat rows.0 ++ rows.1) ++ (word ∷ []))
unfolding push_word
push_word-IsFilled n (full, last) word some_word filled = elim (Bool-cases (length last == n)) [
  | inl q ↦
      let whole : length last ≡ n = (==_iff (length last) n).0 q in
      rw (push_word, q)
        (
          record {
            full = All-append _ full (last ∷ []) filled.full (whole, tt);
            last = omega arith;
          },
          rw (concat-append full last),
        )
  | inr q ↦
      let short : length (last ++ (word ∷ [])) ≤ n =
        ground (arith, length-append last (word ∷ []), filled.last, ==_iff (length last) n) in
      rw (push_word, q)
        (
          record { full = filled.full; last = short },
          sym (append_assoc (concat full) last (word ∷ [])),
        )
]

parse_electronic-found :
    {Double : Type 0} (board : Board Double) (info : ParameterInfo Double) (word : ℕ)
    → find info.name board.parameters ≡ some info
    → parse_electronic board info.name word ≡ ok (value_of_code info (field_of info word))
unfolding parse_electronic
parse_electronic-found board info word found = rw found

pub line_cases :
    (t : LineType) → (t ≡ response_to_write) ⊎ ((frame : SwtFrame) × (t ≡ response_to_read frame))
line_cases response_to_write = inl refl
line_cases (response_to_read frame) = inr (frame, refl)

pub collect_words-total :
    {Double : Type 0} (board : Board Double) (info : ParameterInfo Double) (ls : List Line)
    (rows : RowList)
    → find info.name board.parameters ≡ some info
    → 1 ≤ info.reg_block_size
    → IsFilled info.reg_block_size rows
    → (after : RowList) × (collect_words board info ls rows ≡ ok after)
      × IsFilled info.reg_block_size after
      × (concat after.0 ++ after.1 ≡ (concat rows.0 ++ rows.1) ++ decoded info ls)
unfolding collect_words
collect_words-total board info [] rows found some_word filled =
    (rows, refl, filled, sym (append-nil _))
collect_words-total board info (line ∷ rest) rows found some_word filled =
    elim (line_cases line.type) [
      | inl q ↦
          let (after, collected, full, all) =
            collect_words-total board info rest rows found some_word filled in
          (after, rw (collect_words, q) collected, full, rw q all)
      | inr (frame, q) ↦
          let word = to_u32 (value_of_code info (field_of info frame.word)) in
          let (next, content) = push_word-IsFilled info.reg_block_size rows word some_word filled in
          let (after, collected, full, all) =
            collect_words-total board info rest (push_word info.reg_block_size rows word) found
              some_word next in
          (
            after,
            rw (collect_words, q, parse_electronic-found board info frame.word found) collected,
            full,
            rw (q, all, content)
                (append_assoc (concat rows.0 ++ rows.1) (word ∷ []) (decoded info rest)),
          )
    ]

-- A FIFO parameter of the board with rows of at least one word, and an answer whose lines the parser
-- reads to the end: `parseFifo` collects rows of exactly `regBlockSize` words, but the last, which is
-- no longer, and the rows in a row are the values of the frames in their order.
pub fifo_rows-IsFilled :
    {Double : Type 0} (board : Board Double) (info : ParameterInfo Double) (text : Bytes)
    → find info.name board.parameters ≡ some info
    → 1 ≤ info.reg_block_size
    → (lines text).1 ≡ none
    → (rows : RowList) × (fifo_rows board info text ≡ ok rows)
      × IsFilled info.reg_block_size rows
      × (concat rows.0 ++ rows.1 ≡ decoded info (lines text).0)
unfolding fifo_rows
fifo_rows-IsFilled board info text found some_word ends =
    let (rows, collected, full, all) =
      collect_words-total board info (lines text).0 ([], []) found some_word
        (record { full = tt; last = omega arith }) in
    (rows, rw (fifo_rows, collected, ends), full, all)
