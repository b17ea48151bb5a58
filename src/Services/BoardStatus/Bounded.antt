-- ===== src/Services/BoardStatus/Bounded.antt =====
-- The copy of a row of the GBT FIFO into the array of 36 words.
use fit_fred.Common.{
  ℕ, ◌≤◌, ◌≡◌, refl, sym, ap, subst, arith, Fallible, ok, err, Fallible-cases, Bytes, codes, [],
  ◌∷◌, some, none, List, length, ◌==◌, ltb, false, Bool-cases, inl, inr,
}
use fit_fred.Common.Int.{pos}
use fit_fred.Platform.{Platform}
use fit_fred.Board.Defs.{Board, ParameterInfo, find, at, get_physical_value}
use fit_fred.Board.Lookup.{find-name}
use fit_fred.Handler.Defs.{Error, Handler}
use fit_fred.Handler.Fifo.{
  FifoResponse, fifo_content, fifo_error, create_read_fifo_request, parse_fifo,
}
use fit_fred.Handler.Fifo.Front.{IsFronted, parse_fifo-IsFronted}
use fit_fred.Services.Exchange.{Alf, read_fifo}
use fit_fred.Utils.Gbt.{fifo_size}
use fit_fred.Services.BoardStatus.{
  Escape, board_thrown, no_row, array_overflow, copy_row, physical_value,
}
use fit_fred.Services.BoardStatus.Run.{
  GbtCheck, judge_fifo, read_gbt_fifo, read_unless_empty, check_gbt_errors,
}

-- Neither the missing row nor the array that is too short was met.
abbrev pub IsBounded : Fallible Escape GbtCheck → Type 0
IsBounded (err no_row) = ⊥
IsBounded (err array_overflow) = ⊥
IsBounded _ = Unit

thrown-injective : {A : Type 0} {e f : Escape} → ◌≡◌ {A = Fallible Escape A} (err e) (err f) → e ≡ f
thrown-injective h = cc

judge_fifo-IsBounded :
    (before : List ℕ) (n : ℕ) (response : Fallible Error FifoResponse)
    → n ≤ fifo_size
    → ((rows : List (List ℕ)) → response ≡ ok (fifo_content rows) → IsFronted n rows)
    → IsBounded (judge_fifo before response)
unfolding judge_fifo copy_row
judge_fifo-IsBounded before n (err e) fits fronted = tt
judge_fifo-IsBounded before n (ok (fifo_error e)) fits fronted = tt
judge_fifo-IsBounded before n (ok (fifo_content rows)) fits fronted =
    let f = fronted rows refl in
    let inside : ltb fifo_size (length f.front) ≡ false = ground (arith, f.short) in
    rw (f.begins, inside) tt

module _ (platform : Platform) {W : Type 0} (alf : Alf W) where
  open platform use {Double, from_int64, same_double}

  physical_value-IsBounded :
      (board : Board Double) (name : Bytes) (e : Escape)
      → physical_value platform board name ≡ err e
      → IsBounded (err e)
  unfolding physical_value
  physical_value-IsBounded board name e h = elim (Fallible-cases (at board name)) [
    | inr (x, q) ↦
        let same : ◌≡◌ {A = Fallible Escape Double} (err (board_thrown x)) (err e) =
          rw (physical_value, q) at h in
        subst (λ f. IsBounded (err f)) (thrown-injective same) tt
    | inl (info, q) ↦ elim (Fallible-cases (get_physical_value info)) [
      | inr (x, r) ↦
          let same : ◌≡◌ {A = Fallible Escape Double} (err (board_thrown x)) (err e) =
            rw (physical_value, q, r) at h in
          subst (λ f. IsBounded (err f)) (thrown-injective same) tt
      | inl (value, r) ↦
          let broken : ◌≡◌ {A = Fallible Escape Double} (ok value) (err e) =
            rw (physical_value, q, r) at h in
          cc
    ]
  ]

  -- The handler that has asked for the FIFO alone.
  asking : Handler Double → ParameterInfo Double → Handler Double
  asking h info = record h {
    register_tasks = (info.base_address, record { name = info.name; to_compare = none } ∷ []) ∷ [];
    operations = [];
  }

  read_fifo-parsed :
      (w : W) (h : Handler Double) (info : ParameterInfo Double)
      → find info.name h.board.parameters ≡ some info
      → 1 ≤ info.reg_block_size
      → (answer : Bytes) × ((read_fifo platform alf w h info.name info.reg_block_size).2
          ≡ parse_fifo (asking h info) answer)
  unfolding read_fifo create_read_fifo_request at asking
  read_fifo-parsed w h info found some_word =
      let asked : (info.reg_block_size == 0) ≡ false = ground arith in
      let created = create_read_fifo_request h info.name info.reg_block_size in
      let next : created.0 ≡ asking h info = rw (create_read_fifo_request, found) refl in
      elim (Fallible-cases created.1) [
        | inl (text, e) ↦
            ((alf w text).1, rw (read_fifo, asked, e) (ap (λ n. parse_fifo n (alf w text).1) next))
        | inr (x, e) ↦
            let broken : ◌≡◌ {A = Fallible Error Bytes} (ok _) (err x) =
              rw (create_read_fifo_request, found) at e in
            cc
      ]

  read_gbt_fifo-IsBounded :
      (before : List ℕ) (w : W) (h : Handler Double) (info : ParameterInfo Double)
      → find info.name h.board.parameters ≡ some info
      → 1 ≤ info.reg_block_size
      → info.reg_block_size ≤ fifo_size
      → IsBounded (read_gbt_fifo platform alf before w h info).2
  unfolding read_gbt_fifo asking
  read_gbt_fifo-IsBounded before w h info found some_word fits =
      let (answer, parsed) = read_fifo-parsed w h info found some_word in
      judge_fifo-IsBounded before info.reg_block_size
        (read_fifo platform alf w h info.name info.reg_block_size).2 fits
        λ rows returned.
          parse_fifo-IsFronted (asking h info) info info.base_address answer rows found refl
            some_word (rw parsed at returned)

  -- A board with the parameter of the error FIFO, whose block size is at least one word and at most
  -- the 36 of the array: whatever the electronics answers, the check of the GBT errors takes the
  -- front of a list of rows that has one, and copies a row that the array holds.
  pub check_gbt_errors-IsBounded :
      (before : List ℕ) (w : W) (h : Handler Double) (info : ParameterInfo Double)
      → find (codes "GBT_ERROR_REPORT") h.board.parameters ≡ some info
      → 1 ≤ info.reg_block_size
      → info.reg_block_size ≤ fifo_size
      → IsBounded (check_gbt_errors platform alf before w h).2
  unfolding check_gbt_errors read_unless_empty at
  check_gbt_errors-IsBounded before w h info found some_word fits =
      let named = find-name (codes "GBT_ERROR_REPORT") h.board.parameters info found in
      let own : find info.name h.board.parameters ≡ some info =
        subst (λ key. find key h.board.parameters ≡ some info) (sym named) found in
      elim (Fallible-cases
        (physical_value platform h.board (codes "GBT_FIFO_EMPTY_ERROR_REPORT"))) [
          | inr (e, q) ↦ rw (check_gbt_errors, q) (physical_value-IsBounded h.board _ e q)
          | inl (empty, q) ↦ elim (Bool-cases (same_double empty (from_int64 (pos 1)))) [
            | inl b ↦ rw (check_gbt_errors, q, b) tt
            | inr b ↦
                rw (check_gbt_errors, q, b, found)
                  (read_gbt_fifo-IsBounded before w h info own some_word fits)
          ]
        ]
