-- ===== src/Handler/Fifo/Front.antt =====
-- The first row of a FIFO that is read block by block.
use fit_fred.Common.{
  ℕ, ◌≤◌, ◌≡◌, refl, sym, arith, Fallible, ok, err, Fallible-cases, ok-injective, Bytes, [], ◌∷◌,
  ◌++◌, none, some, List, length, Option-cases, Bool-cases, inl, inr,
}
use fit_fred.Alf.Parser.{lines, is_success}
use fit_fred.Board.Defs.{Board, ParameterInfo, find, at}
use fit_fred.Handler.Defs.{Error, alf_error, alf_communication_failed, Handler}
use fit_fred.Handler.Fifo.{
  RowList, FifoResponse, fifo_content, fifo_error, fifo_rows, parse_fifo, fifo_task,
}
use fit_fred.Handler.Fifo.Rows.{IsFilled, collect_words-total}

-- There is a row, and the first one has at most `n` words.
pub record IsFronted (n : ℕ) (rows : List (List ℕ)) : Type 0 where
  pub front : List ℕ
  pub rest : List (List ℕ)
  pub begins : rows ≡ front ∷ rest
  pub short : length front ≤ n

filled-IsFronted :
    (n : ℕ) (rows : RowList) → IsFilled n rows → IsFronted n (rows.0 ++ (rows.1 ∷ []))
filled-IsFronted n ([], last) filled = record {
  front = last;
  rest = [];
  begins = refl;
  short = filled.last;
}
filled-IsFronted n (row ∷ full, last) filled = record {
  front = row;
  rest = full ++ (last ∷ []);
  begins = refl;
  short = omega (arith, filled.full.0);
}

fifo_rows-eq-ok :
    {Double : Type 0} (board : Board Double) (info : ParameterInfo Double) (text : Bytes)
    (rows : RowList)
    → find info.name board.parameters ≡ some info
    → 1 ≤ info.reg_block_size
    → fifo_rows board info text ≡ ok rows
    → IsFilled info.reg_block_size rows
unfolding fifo_rows
fifo_rows-eq-ok board info text rows found some_word h =
    let (after, collected, full, _) =
      collect_words-total board info (lines text).0 ([], []) found some_word
        (record { full = tt; last = omega arith }) in
    elim (Option-cases (lines text).1) [
      | inl e ↦
          let same : after ≡ rows = ok-injective {E = Error} (rw (fifo_rows, collected, e) at h) in
          rw (sym same) full
      | inr (x, e) ↦
          let broken : ◌≡◌ {A = Fallible Error RowList} (err (alf_error x)) (ok rows) =
            rw (fifo_rows, collected, e) at h in
          cc
    ]

-- A FIFO parameter of the board with rows of at least one word, that was asked for alone: if its
-- answer gives rows, there is a first one, and it is no longer than the parameter says.
pub parse_fifo-IsFronted :
    {Double : Type 0} (h : Handler Double) (info : ParameterInfo Double) (address : ℕ)
    (text : Bytes) (rows : List (List ℕ))
    → find info.name h.board.parameters ≡ some info
    → h.register_tasks ≡ (address, record { name = info.name; to_compare = none } ∷ []) ∷ []
    → 1 ≤ info.reg_block_size
    → parse_fifo h text ≡ ok (fifo_content rows)
    → IsFronted info.reg_block_size rows
unfolding parse_fifo fifo_task at
parse_fifo-IsFronted h info address text rows found asked some_word returned =
    let located : at h.board info.name ≡ ok info = rw (at, found) refl in
    elim (Bool-cases (is_success text)) [
      | inl e ↦ elim (Fallible-cases (fifo_rows h.board info text)) [
        | inl (list, q) ↦
            let same : ◌≡◌ {A = Fallible Error FifoResponse}
                (ok (fifo_content (list.0 ++ (list.1 ∷ [])))) (ok (fifo_content rows)) =
              rw (parse_fifo, asked, fifo_task, located, e, q) at returned in
            let own : list.0 ++ (list.1 ∷ []) ≡ rows = cc in
            rw (sym own) (
              filled-IsFronted info.reg_block_size list
                (fifo_rows-eq-ok h.board info text list found some_word q))
        | inr (x, q) ↦
            let broken : ◌≡◌ {A = Fallible Error FifoResponse} (err x) (ok (fifo_content rows)) =
              rw (parse_fifo, asked, fifo_task, located, e, q) at returned in
            cc
      ]
      | inr e ↦
          let broken : ◌≡◌ {A = Fallible Error FifoResponse}
              (ok (fifo_error alf_communication_failed)) (ok (fifo_content rows)) =
            rw (parse_fifo, asked, fifo_task, located, e) at returned in
          cc
    ]
