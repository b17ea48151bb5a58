-- ===== src/Services/BlockRead/Answer.antt =====
-- What `blockRead` makes of the frames of an answer.
use fit_fred.Common.{
  ℕ, suc, ◌≤◌, ◌≡◌, refl, sym, arith, ok, Bytes, [], ◌∷◌, ◌++◌, append-nil, append_assoc, none,
  List, length, length-append, ltb, leb, if◌then◌else◌, true, Bool-cases, inl, inr,
}
use fit_fred.Alf.Parser.{Line, response_to_read, response_to_write, lines, is_success}
use fit_fred.Handler.Fifo.Rows.{line_cases}
use fit_fred.Services.BlockRead.{
  BlockResponse, block_content, too_many_frames, incomplete, collect_block, parse_block,
}

-- The words of the frames, in the order of the lines.
abbrev pub frame_words : List Line → List ℕ
frame_words [] = []
frame_words (line ∷ rest) = elim line.type [
  | response_to_write ↦ frame_words rest
  | response_to_read frame ↦ frame.word ∷ frame_words rest
]

-- What the number of words decides.
abbrev pub judged : ℕ → List ℕ → BlockResponse
judged words content =
    if ltb words (length content)
    then too_many_frames
    else if ltb (length content) words
    then incomplete (length content)
    else block_content content

collect_block-judged :
    (words idx : ℕ) (content : List ℕ) (ls : List Line)
    → length content ≡ idx
    → idx ≤ words
    → collect_block words idx content ls none ≡ ok (judged words (content ++ frame_words ls))
unfolding collect_block
collect_block-judged words idx content [] h fits = rw (append-nil content) (ground (arith, h))
collect_block-judged words idx content (line ∷ rest) h fits = elim (line_cases line.type) [
  | inl q ↦ rw (collect_block, q) (collect_block-judged words idx content rest h fits)
  | inr (frame, q) ↦ elim (Bool-cases (leb words idx)) [
    | inl full ↦
        let longer : ltb words (length (content ++ (frame.word ∷ frame_words rest))) ≡ true =
          ground (arith, length-append content (frame.word ∷ frame_words rest), h) in
        rw (collect_block, q, full, longer)
    | inr room ↦
        let longer : length (content ++ (frame.word ∷ [])) ≡ suc idx =
          ground (arith, length-append content (frame.word ∷ []), h) in
        let rest_of =
          collect_block-judged words (suc idx) (content ++ (frame.word ∷ [])) rest longer
            (ground arith) in
        rw (collect_block, q, room)
          (rw (sym (append_assoc content (frame.word ∷ []) (frame_words rest))) rest_of)
  ]
]

-- A successful answer whose lines the parser reads to the end: `blockRead` returns the words of all
-- frames in their order if they are as many as were asked for, and else reports too many frames or
-- the number of words that came.
pub parse_block-judged :
    (words : ℕ) (text : Bytes)
    → is_success text ≡ true
    → (lines text).1 ≡ none
    → parse_block words text ≡ ok (judged words (frame_words (lines text).0))
unfolding parse_block
parse_block-judged words text success ends =
    rw (success, ends) (collect_block-judged words 0 [] (lines text).0 refl (omega arith))
