-- ===== src/Services/DatabaseBroker/Transaction.antt =====
-- What a request of ConfigurationDatabaseBroker does to the database as a whole.
use fit_fred.Common.{
  ℕ, suc, ◌+◌, ◌≡◌, refl, sym, subst, arith, Bytes, codes, [], ◌∷◌, ◌++◌, append_assoc, append-nil,
  Option, none, some, List, length, if◌then◌else◌, true, false, is_empty, ◌⊎◌, inl, inr,
}
use fit_fred.Platform.{Platform}
use fit_fred.Board.Defs.{Board}
use fit_fred.Database.Columns.{Database}
use fit_fred.Services.Requests.{get_all, newline}
use fit_fred.Services.DatabaseBroker.{Library, Refusal}
use fit_fred.Services.DatabaseBroker.Execute.{
  Connection, Escape, Execution, answered, refused, escaped,
}
use fit_fred.Services.DatabaseBroker.Run.{
  Publication, not_connected, request_failed, answer, LoopEnd, finished, failed, thrown, close,
  run_line, run_lines, run_request, process_execution,
}

abbrev pub concat : List Bytes → Bytes
concat [] = []
concat (text ∷ texts) = text ++ concat texts

-- The answer to a request that succeeded.
abbrev pub shown : Bytes → Bytes
shown results = if is_empty results then codes "Queries succeeded" else results

Execution-cases :
    (x : Execution)
    → ((text : Bytes) × (x ≡ answered text))
      ⊎ ((e : Refusal) × (x ≡ refused e))
      ⊎ ((e : Escape) × (x ≡ escaped e))
Execution-cases (answered text) = inl (text, refl)
Execution-cases (refused e) = inr (inl (e, refl))
Execution-cases (escaped e) = inr (inr (e, refl))

module _ (platform : Platform) (database : Database) {W : Type 0} where
  open platform use {Double}
  open database use {Field}

  module _ (connection : Connection W Field) (library : Library Double)
      (boards : List (Bytes × Board Double)) where
    open connection use {is_connected, commit_update}

    abbrev pub line_of : W → Bytes → W × Execution
    line_of = run_line platform database connection library boards

    -- Lines that were all executed, each on the database that the one before left, with the text of
    -- each line that is not empty.
    pub data Executes : W → List Bytes → List Bytes → W → Type 0 where
      done : (w : W) → Executes w [] [] w
      skip :
          (w end : W) (lines texts : List Bytes)
          → Executes w lines texts end
          → Executes w ([] ∷ lines) texts end
      next :
          (w between end : W) (c : ℕ) (s text : Bytes) (lines texts : List Bytes)
          → line_of w (c ∷ s) ≡ (between, answered text)
          → Executes between lines texts end
          → Executes w ((c ∷ s) ∷ lines) (text ∷ texts) end

    -- How the lines of a request end, with the database, what is published and what is thrown.
    pub data Transaction : W → List Bytes → W × List Publication × Option Escape → Type 0 where
      committed :
          (w end : W) (lines texts : List Bytes)
          → Executes w lines texts end
          → Transaction w lines (commit_update end true, answer (shown (concat texts)) ∷ [], none)
      rolled_back :
          (w between end : W) (before after texts : List Bytes) (line : Bytes) (e : Refusal)
          → Executes w before texts between
          → line_of between line ≡ (end, refused e)
          → Transaction w
              (before ++ (line ∷ after))
              (commit_update end false, request_failed (length texts) e ∷ [], none)
      left_open :
          (w between end : W) (before after texts : List Bytes) (line : Bytes) (e : Escape)
          → Executes w before texts between
          → line_of between line ≡ (end, escaped e)
          → Transaction w (before ++ (line ∷ after)) (end, [], some e)

    -- The same of the loop, from a number of lines and results on.
    data Ends : W → ℕ → Bytes → List Bytes → W × LoopEnd → Type 0 where
      to_the_end :
          (w end : W) (number : ℕ) (results : Bytes) (lines texts : List Bytes)
          → Executes w lines texts end
          → Ends w number results lines (end, finished (results ++ concat texts))
      at_refused :
          (w between end : W) (number : ℕ) (results : Bytes) (before after texts : List Bytes)
          (line : Bytes) (e : Refusal)
          → Executes w before texts between
          → line_of between line ≡ (end, refused e)
          → Ends w number results (before ++ (line ∷ after)) (end, failed (number + length texts) e)
      at_escaped :
          (w between end : W) (number : ℕ) (results : Bytes) (before after texts : List Bytes)
          (line : Bytes) (e : Escape)
          → Executes w before texts between
          → line_of between line ≡ (end, escaped e)
          → Ends w number results (before ++ (line ∷ after)) (end, thrown e)

    skipped :
        (w : W) (number : ℕ) (results : Bytes) (lines : List Bytes) (end : W × LoopEnd)
        → Ends w number results lines end
        → Ends w number results ([] ∷ lines) end
    skipped w number results lines end (to_the_end _ last _ _ _ texts e) =
        to_the_end w last number results ([] ∷ lines) texts (skip w last lines texts e)
    skipped w number results lines end
          (at_refused _ between last _ _ before after texts line e x r) =
        at_refused w between last number results ([] ∷ before) after texts line e
          (skip w between before texts x) r
    skipped w number results lines end
          (at_escaped _ between last _ _ before after texts line e x r) =
        at_escaped w between last number results ([] ∷ before) after texts line e
          (skip w between before texts x) r

    later :
        (w middle : W) (number : ℕ) (c : ℕ) (s text results : Bytes) (lines : List Bytes)
        (end : W × LoopEnd)
        → line_of w (c ∷ s) ≡ (middle, answered text)
        → Ends middle (number + 1) (results ++ text) lines end
        → Ends w number results ((c ∷ s) ∷ lines) end
    later w middle number c s text results lines end q (to_the_end _ last _ _ _ texts e) =
        subst (λ r. Ends w number results ((c ∷ s) ∷ lines) (last, finished r))
          (sym (append_assoc results text (concat texts)))
          (to_the_end w last number results ((c ∷ s) ∷ lines) (text ∷ texts)
            (next w middle last c s text lines texts q e))
    later w middle number c s text results lines end q
          (at_refused _ between last _ _ before after texts line e x r) =
        let counted : number + suc (length texts) ≡ number + 1 + length texts = omega arith in
        subst (λ n. Ends w number results (((c ∷ s) ∷ before) ++ (line ∷ after)) (last, failed n e))
          counted
          (at_refused w between last number results ((c ∷ s) ∷ before) after (text ∷ texts) line e
            (next w middle between c s text before texts q x) r)
    later w middle number c s text results lines end q
          (at_escaped _ between last _ _ before after texts line e x r) =
        at_escaped w between last number results ((c ∷ s) ∷ before) after (text ∷ texts) line e
          (next w middle between c s text before texts q x) r

    run_lines-Ends :
        (lines : List Bytes) (w : W) (number : ℕ) (results : Bytes)
        → Ends w number results lines
            (run_lines platform database connection library boards w number results lines)
    unfolding run_lines
    run_lines-Ends [] w number results =
        subst (λ r. Ends w number results [] (w, finished r)) (append-nil results)
          (to_the_end w w number results [] [] (done w))
    run_lines-Ends ([] ∷ lines) w number results =
        skipped w number results lines _ (run_lines-Ends lines w number results)
    run_lines-Ends ((c ∷ s) ∷ lines) w number results =
        let after = (line_of w (c ∷ s)).0 in
        elim (Execution-cases (line_of w (c ∷ s)).1) [
          | inl (text, q) ↦
              rw (run_lines, q)
                (later w after number c s text results lines _ (rw (sym q))
                  (run_lines-Ends lines after (number + 1) (results ++ text)))
          | inr (inl (e, q)) ↦
              rw (run_lines, q)
                (subst (λ n. Ends w number results ((c ∷ s) ∷ lines) (after, failed n e))
                  (omega arith)
                  (at_refused w w after number results [] lines [] (c ∷ s) e (done w) (rw (sym q))))
          | inr (inr (e, q)) ↦
              rw (run_lines, q)
                (at_escaped w w after number results [] lines [] (c ∷ s) e (done w) (rw (sym q)))
        ]

    closed :
        (w : W) (lines : List Bytes) (end : W × LoopEnd)
        → Ends w 0 [] lines end
        → Transaction w lines (close platform database connection library boards end)
    unfolding close
    closed w lines end (to_the_end _ last _ _ _ texts x) = committed w last lines texts x
    closed w lines end (at_refused _ between last _ _ before after texts line e x r) =
        let counted : length texts ≡ 0 + length texts = omega arith in
        subst
          (λ n.
            Transaction w (before ++ (line ∷ after))
              (commit_update last false, request_failed n e ∷ [], none))
          counted (rolled_back w between last before after texts line e x r)
    closed w lines end (at_escaped _ between last _ _ before after texts line e x r) =
        left_open w between last before after texts line e x r

    -- Whatever the database and the request, if it is not empty: either every line was executed, each
    -- on the database that the one before left, the changes were committed and the results, or that
    -- the queries succeeded, were published; or the lines before some line were executed, that one
    -- was refused, the changes were rolled back and the error was published with the number of lines
    -- executed, empty ones not counted; or a line was left by an exception, which also leaves the
    -- service with neither a commit nor a roll-back. A missing connection is published in front.
    pub process_execution-Transaction :
        (w : W) (c : ℕ) (s : Bytes)
        → let (end, published, exception) =
            process_execution platform database connection library boards w (c ∷ s) in
          (own : List Publication) × (published
            ≡ (if is_connected w then [] else not_connected ∷ []) ++ own)
          × Transaction w (get_all newline (c ∷ s)) (end, own, exception)
    unfolding process_execution run_request
    process_execution-Transaction w c s =
        let lines = get_all newline (c ∷ s) in
        let loop = run_lines platform database connection library boards w 0 [] lines in
        (
          (close platform database connection library boards loop).1,
          refl,
          closed w lines loop (run_lines-Ends lines w 0 []),
        )
