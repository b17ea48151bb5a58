-- ===== src/Handler/Receive/Frame.antt =====
-- An answer leaves the shared variables as they are, whatever it stores in the parameters.
use fit_fred.Common.{
  ℕ, ◌≡◌, refl, sym, ap, ◌∙◌, Fallible, ok, err, Fallible-cases, ok-injective, Bytes, [], ◌∷◌,
  Option, none, some, List, ◌==◌, Bool-cases, Option-cases, inl, inr,
}
use fit_fred.Common.Map.{lookup}
use fit_fred.Alf.Parser.{Line, lines, is_success}
use fit_fred.Alf.Frame.{SwtFrame}
use fit_fred.Alf.Hex.{ParseError}
use fit_fred.Platform.{Platform}
use fit_fred.Board.Defs.{store_value}
use fit_fred.Handler.Defs.{Error, no_register_task, ParameterToHandle, Handler}
use fit_fred.Handler.Receive.{
  Outcome, read_parameter, handle_task, handle_tasks, unpack_read_response, unpack_lines,
  process_message_from_alf,
}
use fit_fred.Handler.Fifo.Rows.{line_cases}

module _ (platform : Platform) where
  open platform use {Double}

  -- The same variables on two boards.
  abbrev SameVariables : Outcome Double → Outcome Double → Type 0
  SameVariables a b = a.board.environment ≡ b.board.environment

  handle_task-SameVariables :
      (task : ParameterToHandle) (word : ℕ) (out : Outcome Double)
      → SameVariables (handle_task platform task word out) out
  unfolding handle_task store_value
  handle_task-SameVariables task word out =
      elim (Fallible-cases (read_parameter platform out.board task word)) [
        | inl ((info, electronic, value), e) ↦ rw (handle_task, e) refl
        | inr (x, e) ↦ rw (handle_task, e) refl
      ]

  handle_tasks-SameVariables :
      (tasks : List ParameterToHandle) (word : ℕ) (out : Outcome Double)
      → SameVariables (handle_tasks platform tasks word out) out
  unfolding handle_tasks
  handle_tasks-SameVariables [] word out = refl
  handle_tasks-SameVariables (task ∷ tasks) word out =
      handle_tasks-SameVariables tasks word (handle_task platform task word out)
      ∙ handle_task-SameVariables task word out

  unpack_read_response-SameVariables :
      (tasks : List (ℕ × List ParameterToHandle)) (frame : SwtFrame) (out next : Outcome Double)
      → unpack_read_response platform tasks frame out ≡ ok next
      → SameVariables next out
  unfolding unpack_read_response
  unpack_read_response-SameVariables tasks frame out next h =
      elim (Bool-cases (frame.prefix == 0)) [
        | inr e ↦
            let same : out ≡ next = ok-injective (rw (unpack_read_response, e) at h) in
            ap (λ (o : Outcome Double). o.board.environment) (sym same)
        | inl e ↦ elim (Option-cases (lookup frame.address tasks)) [
          | inl q ↦
              let thrown : ◌≡◌ {A = Fallible Error (Outcome Double)}
                  (err (no_register_task frame.address)) (ok next) =
                rw (unpack_read_response, e, q) at h in
              cc
          | inr (list, q) ↦
              let same : handle_tasks platform list frame.word out ≡ next =
                ok-injective (rw (unpack_read_response, e, q) at h) in
              ap (λ (o : Outcome Double). o.board.environment) (sym same)
              ∙ handle_tasks-SameVariables list frame.word out
        ]
      ]

  unpack_lines-SameVariables :
      (tasks : List (ℕ × List ParameterToHandle)) (ls : List Line) (end : Option ParseError)
      (out : Outcome Double)
      → SameVariables (unpack_lines platform tasks ls end out) out
  unfolding unpack_lines
  unpack_lines-SameVariables tasks [] none out = refl
  unpack_lines-SameVariables tasks [] (some e) out = refl
  unpack_lines-SameVariables tasks (line ∷ rest) end out = elim (line_cases line.type) [
    | inl q ↦ rw (unpack_lines, q) (unpack_lines-SameVariables tasks rest end out)
    | inr (frame, q) ↦ elim (Fallible-cases (unpack_read_response platform tasks frame out)) [
      | inl (next, e) ↦
          rw (unpack_lines, q, e)
            (unpack_lines-SameVariables tasks rest end next
              ∙ unpack_read_response-SameVariables tasks frame out next e)
      | inr (x, e) ↦ rw (unpack_lines, q, e) refl
    ]
  ]

  -- Whatever the answer: the shared variables that the board has afterwards are those that it had.
  pub process_message_from_alf-environment :
      (h : Handler Double) (text : Bytes)
      → (process_message_from_alf platform h text).board.environment ≡ h.board.environment
  unfolding process_message_from_alf
  process_message_from_alf-environment h text = elim (Bool-cases (is_success text)) [
    | inl e ↦
        rw (process_message_from_alf, e)
          (unpack_lines-SameVariables h.register_tasks (lines text).0 (lines text).1 _)
    | inr e ↦ rw (process_message_from_alf, e) refl
  ]
