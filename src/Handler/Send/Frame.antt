-- ===== src/Handler/Send/Frame.antt =====
-- A request leaves the handler's board as it is.
use fit_fred.Common.{
  ◌≡◌, refl, sym, ap, ◌∙◌, Fallible, ok, err, ◌>>=◌, >>=-eq-ok, Fallible-cases, ok-injective, Bytes,
  [], ◌∷◌, List, Bool, inl, inr,
}
use fit_fred.Platform.{Platform}
use fit_fred.Board.Defs.{at}
use fit_fred.WinCc.Request.{Command, parse_request, is_write}
use fit_fred.Handler.Defs.{
  Error, board_error, request_error, through, Handler, reset_execution_data,
}
use fit_fred.Handler.Send.{
  create_swt_operation, add_to_operations, process_command, process_commands, try_request,
  process_message_from_wincc,
}

module _ (platform : Platform) where
  open platform use {Double}

  -- `m >>= f`, where whatever `f` returns has the board of `h`.
  abbrev KeepsBoard : Handler Double → Fallible Error (Handler Double) → Type 0
  KeepsBoard h m = (next : Handler Double) → m ≡ ok next → next.board ≡ h.board

  bind-KeepsBoard :
      {A : Type 0} (h : Handler Double) (m : Fallible Error A)
      (f : A → Fallible Error (Handler Double))
      → ((a : A) → KeepsBoard h (f a))
      → KeepsBoard h (m >>= f)
  bind-KeepsBoard h (ok a) f keeps next e = keeps a next e
  bind-KeepsBoard h (err x) f keeps next e = cc

  process_command-KeepsBoard :
      (h : Handler Double) (command : Command Double)
      → KeepsBoard h (process_command platform h command)
  unfolding process_command
  process_command-KeepsBoard h command =
      bind-KeepsBoard h (create_swt_operation platform h.board command) _ λ op.
        bind-KeepsBoard h (through board_error (at h.board command.name)) _ λ info.
          bind-KeepsBoard h (add_to_operations info.base_address op h.operations) _
            λ ops next e. ap (λ (n : Handler Double). n.board) (sym (ok-injective e))

  process_commands-KeepsBoard :
      (commands : List (Command Double)) (h : Handler Double)
      → KeepsBoard h (process_commands platform h commands)
  unfolding process_commands
  process_commands-KeepsBoard [] h next e =
      ap (λ (n : Handler Double). n.board) (sym (ok-injective e))
  process_commands-KeepsBoard (command ∷ commands) h next e =
      let (middle, first, rest) =
        >>=-eq-ok (process_command platform h command) (λ n. process_commands platform n commands)
          e in
      process_commands-KeepsBoard commands middle next rest
      ∙ process_command-KeepsBoard h command middle first

  -- `processMessageFromWinCC` works on the board that the handler has.
  pub process_message_from_wincc-board :
      (h : Handler Double) (message : Bytes) (read_after_write : Bool)
      → (process_message_from_wincc platform h message read_after_write).0.board ≡ h.board
  unfolding process_message_from_wincc try_request
  process_message_from_wincc-board h message read_after_write =
      elim (Fallible-cases (try_request platform (reset_execution_data h) message)) [
        | inl ((next, writes), e) ↦
            let (request, parsed, e1) =
              >>=-eq-ok (through request_error (parse_request platform message))
                (λ request. do
                  next ← process_commands platform (reset_execution_data h) request.commands
                  ok (next, is_write request))
                e in
            let (last, processed, e2) =
              >>=-eq-ok (process_commands platform (reset_execution_data h) request.commands)
                (λ next. ok (next, is_write request)) e1 in
            let same : (last, is_write request) ≡ (next, writes) = ok-injective e2 in
            rw (process_message_from_wincc, e)
              (ap (λ p. p.0.board) (sym same)
                ∙ process_commands-KeepsBoard request.commands (reset_execution_data h) last
                    processed)
        | inr (x, e) ↦ rw (process_message_from_wincc, e) refl
      ]
