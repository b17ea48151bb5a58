-- ===== src/WinCc/Request/Uniform.antt =====
-- A request holds the commands of its lines, and either reads only or writes only.
use fit_fred.Common.{
  ◌≡◌, refl, sym, ◌∙◌, ap, arith, Fallible, ok, ◌>>=◌, Bool-cases, ok-injective, >>=-eq-ok, subst,
  Bytes, codes, [], ◌∷◌, ◌++◌, append_assoc, append-nil, Option, none, some, List, Bool, inl, inr,
}
use fit_fred.Platform.{Platform}
use fit_fred.WinCc.Request.{
  RequestError, Command, Request, is_write_operation, add_command, bool_ne, add_lines,
  parse_command, parse_request,
}

-- All commands are writes, or all are reads.
abbrev pub OfKind : {Double : Type 0} → Bool → List (Command Double) → Type 0
OfKind flag [] = Unit
OfKind flag (cmd ∷ cmds) = (is_write_operation cmd.operation ≡ flag) × OfKind flag cmds

OfKind-append :
    {Double : Type 0} (flag : Bool) (xs ys : List (Command Double))
    → OfKind flag xs
    → OfKind flag ys
    → OfKind flag (xs ++ ys)
OfKind-append flag [] ys hx hy = hy
OfKind-append flag (x ∷ xs) ys hx hy = (hx.0, OfKind-append flag xs ys hx.1 hy)

-- The flag of a request says what its commands are; it is not set before the first command.
abbrev pub IsUniform : {Double : Type 0} → Option Bool → List (Command Double) → Type 0
IsUniform none cmds = cmds ≡ []
IsUniform (some flag) cmds = OfKind flag cmds

module _ (platform : Platform) where
  open platform use {Double, split_string}

  -- The commands of the lines, one by one.
  pub parse_lines : List Bytes → Fallible RequestError (List (Command Double))
  parse_lines [] = ok []
  parse_lines (line ∷ rest) = do
    cmd ← parse_command platform line
    cmds ← parse_lines rest
    ok (cmd ∷ cmds)

  add_command-IsUniform :
      (flag : Option Bool) (cmds : List (Command Double)) (cmd : Command Double)
      (next : Request Double)
      → IsUniform flag cmds
      → add_command (record { commands = cmds; is_write_flag = flag }) cmd ≡ ok next
      → IsUniform next.is_write_flag next.commands × (next.commands ≡ cmds ++ cmd ∷ [])
  unfolding add_command bool_ne
  add_command-IsUniform none cmds cmd next u e =
      let kind = is_write_operation cmd.operation in
      let before : OfKind kind cmds = rw u tt in
      subst (λ n. IsUniform n.is_write_flag n.commands × (n.commands ≡ cmds ++ cmd ∷ []))
        (ok-injective e) (OfKind-append kind cmds (cmd ∷ []) before (refl, tt), refl)
  add_command-IsUniform (some flag) cmds cmd next u e =
      elim (Bool-cases (bool_ne flag (is_write_operation cmd.operation))) [
        | inl differs ↦ let broken = rw (add_command, differs) at e in cc
        | inr same ↦
            let kept = rw (add_command, same) at e in
            subst (λ n. IsUniform n.is_write_flag n.commands × (n.commands ≡ cmds ++ cmd ∷ []))
              (ok-injective kept) (OfKind-append flag cmds (cmd ∷ []) u (ground arith, tt), refl)
      ]

  add_lines-IsUniform :
      (lines : List Bytes) (flag : Option Bool) (cmds : List (Command Double))
      (req : Request Double)
      → IsUniform flag cmds
      → add_lines platform (record { commands = cmds; is_write_flag = flag }) lines ≡ ok req
      → IsUniform req.is_write_flag req.commands
        × ((tail : List (Command Double)) × (parse_lines lines ≡ ok tail)
            × (req.commands ≡ cmds ++ tail))
  unfolding add_lines parse_lines
  add_lines-IsUniform [] flag cmds req u e =
      subst
        (λ n.
          IsUniform n.is_write_flag n.commands
          × ((tail : List (Command Double)) × (parse_lines [] ≡ ok tail)
              × (n.commands ≡ cmds ++ tail)))
        (ok-injective e) (u, ([], refl, sym (append-nil cmds)))
  add_lines-IsUniform (line ∷ rest) flag cmds req u e =
      let (cmd, parsed, e') = >>=-eq-ok (parse_command platform line) _ e in
      let (next, added, e'') = >>=-eq-ok (add_command _ cmd) _ e' in
      let (u', grown) = add_command-IsUniform flag cmds cmd next u added in
      let (u'', (tail, read, all)) =
        add_lines-IsUniform rest next.is_write_flag next.commands req u' e'' in
      (u'', (cmd ∷ tail, ground arith, all ∙ rw grown (append_assoc cmds (cmd ∷ []) tail)))

  -- A request that is accepted holds exactly the commands of its lines, in their order, and they are
  -- all writes or all reads: a request that mixes the two is refused.
  pub parse_request-IsUniform :
      (input : Bytes) (req : Request Double)
      → parse_request platform input ≡ ok req
      → IsUniform req.is_write_flag req.commands
        × (parse_lines (split_string input (codes "\n")) ≡ ok req.commands)
  unfolding parse_request
  parse_request-IsUniform input req e =
      let (u, (tail, read, all)) =
        add_lines-IsUniform (split_string input (codes "\n")) none [] req refl e in
      (u, read ∙ ap ok (sym all))
