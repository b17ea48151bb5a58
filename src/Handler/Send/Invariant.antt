-- ===== src/Handler/Send/Invariant.antt =====
-- The maps of operations and of tasks that `processMessageFromWinCC` leaves.
use fit_fred.Common.{
  ℕ, ◌≡◌, refl, sym, arith, Fallible, ok, err, none, some, Option, Option-cases, List, [], ◌∷◌,
  ◌++◌, ◌==◌, ==_iff, if◌then◌else◌, Bool, true, false, Bool-cases, inl, inr, Bytes, ◌>>=◌,
  >>=-eq-ok, Fallible-cases, ok-injective, ap,
}
use fit_fred.Common.Map.{lookup, assign, lookup-assign}
use fit_fred.Swt.Sequence.{Operation, SwtOperation}
use fit_fred.Platform.{Platform}
use fit_fred.Board.Defs.{at}
use fit_fred.WinCc.Request.{Command, parse_request, is_write}
use fit_fred.Handler.Defs.{
  Error, different_types, through, through-eq-ok, board_error, request_error, Handler,
  ParameterToHandle, reset_execution_data,
}
use fit_fred.Handler.Send.{
  create_swt_operation, add_task, add_to_operations, merge_operation, merge_same, same_type,
  process_command, process_commands, process_message_from_wincc, try_request, to_compare,
}
use fit_fred.Handler.Send.Cases.{create_swt_operation-address}

abbrev pub is_some {ℓ} : {A : Type ℓ} → Option A → Bool
is_some none = false
is_some (some a) = true

-- What holds of the two maps.
pub record IsConsistent {Double : Type 0} (h : Handler Double) : Type 0 where
  pub own_address : (a : ℕ) (op : SwtOperation) → lookup a h.operations ≡ some op → op.address ≡ a
  pub served : (a : ℕ) → is_some (lookup a h.operations) ≡ is_some (lookup a h.register_tasks)

reset-IsConsistent : {Double : Type 0} (h : Handler Double) → IsConsistent (reset_execution_data h)
unfolding lookup
reset-IsConsistent h = record { own_address = λ a op e. cc; served = λ a. refl }

lookup-add_task :
    (a other : ℕ) (task : ParameterToHandle) (tasks : List (ℕ × List ParameterToHandle))
    → is_some (lookup other (add_task a task tasks))
      ≡ (if a == other then true else is_some (lookup other tasks))
unfolding add_task
lookup-add_task a other task tasks = elim (Option-cases (lookup a tasks)) [
  | inl e ↦
      rw (add_task, e, lookup-assign a other (task ∷ []) tasks)
        (elim (Bool-cases (a == other)) [ inl q ↦ rw q | inr q ↦ rw q ])
  | inr (list, e) ↦
      rw (add_task, e, lookup-assign a other (list ++ (task ∷ [])) tasks)
        (elim (Bool-cases (a == other)) [ inl q ↦ rw q | inr q ↦ rw q ])
]

merge_same-address :
    (t : Operation) (op op' merged : SwtOperation)
    → merge_same t op op' ≡ ok merged
    → merged.address ≡ op.address
unfolding merge_same
merge_same-address Operation.read op op' merged h = rw (sym (ok-injective h))
merge_same-address Operation.rmw_bits op op' merged h = rw (sym (ok-injective h))
merge_same-address Operation.write op op' merged h = cc
merge_same-address Operation.rmw_sum op op' merged h = cc
merge_same-address Operation.block_read op op' merged h = cc
merge_same-address Operation.block_read_non_increment op op' merged h = cc

merge_operation-address :
    (op op' merged : SwtOperation)
    → merge_operation op op' ≡ ok merged
    → merged.address ≡ op.address
unfolding merge_operation
merge_operation-address op op' merged h = elim (Bool-cases (same_type op.type op'.type)) [
  | inl e ↦ merge_same-address op.type op op' merged (rw (merge_operation, e) at h)
  | inr e ↦
      let failed : ◌≡◌ {A = Fallible Error SwtOperation} (err different_types) (ok merged) =
        rw (merge_operation, e) at h in
      cc
]

-- One entry of the map of operations is set, to an operation on the same register.
add_to_operations-eq-ok :
    (a : ℕ) (op : SwtOperation) (ops ops' : List (ℕ × SwtOperation))
    → op.address ≡ a
    → ((other : ℕ) (there : SwtOperation) → lookup other ops ≡ some there → there.address ≡ other)
    → add_to_operations a op ops ≡ ok ops'
    → (set : SwtOperation) × (set.address ≡ a) × (ops' ≡ assign a set ops)
unfolding add_to_operations
add_to_operations-eq-ok a op ops ops' own all h = elim (Option-cases (lookup a ops)) [
  | inl e ↦
      let made : ◌≡◌ {A = Fallible Error _} (ok (assign a op ops)) (ok ops') =
        rw (add_to_operations, e) at h in
      (op, own, sym (ok-injective made))
  | inr (there, e) ↦
      let (merged, merges, made) =
        >>=-eq-ok (merge_operation there op) (λ merged. ok (assign a merged ops))
          (rw (add_to_operations, e) at h) in
      (
        merged,
        rw (merge_operation-address there op merged merges) (all a there e),
        sym (ok-injective made),
      )
]

assign-IsConsistent :
    {Double : Type 0} (h : Handler Double) (a : ℕ) (set : SwtOperation) (task : ParameterToHandle)
    → set.address ≡ a
    → IsConsistent h
    → IsConsistent (record h {
      register_tasks = add_task a task h.register_tasks;
      operations = assign a set h.operations;
    })
assign-IsConsistent h a set task own c = record {
  own_address = λ other op e. elim (Bool-cases (a == other)) [
    | inl q ↦
        let same : ◌≡◌ {A = Option SwtOperation} (some set) (some op) =
          rw (lookup-assign a other set h.operations, q) at e in
        let here : set ≡ op = cc in rw (sym here) (omega (arith, own, (==_iff a other).0 q))
    | inr q ↦ c.own_address other op (rw (lookup-assign a other set h.operations, q) at e)
  ];
  served = λ other.
      rw (lookup-assign a other set h.operations, lookup-add_task a other task h.register_tasks)
        (elim (Bool-cases (a == other)) [ inl q ↦ rw q | inr q ↦ rw q (c.served other) ]);
}

module _ (platform : Platform) where
  process_command-IsConsistent :
      (h next : Handler platform.Double) (command : Command platform.Double)
      → IsConsistent h
      → process_command platform h command ≡ ok next
      → IsConsistent next
  unfolding process_command
  process_command-IsConsistent h next command c e =
      let (op, made, e1) =
        >>=-eq-ok (create_swt_operation platform h.board command)
          (λ op. do
            info ← through board_error (at h.board command.name)
            let task : ParameterToHandle = record {
              name = info.name;
              to_compare = to_compare platform info command op;
            }
            ops ← add_to_operations info.base_address op h.operations
            ok (record h {
              register_tasks = add_task info.base_address task h.register_tasks;
              operations = ops;
            }))
          e in
      let (info, found, e2) =
        >>=-eq-ok (through board_error (at h.board command.name))
          (λ info. do
            let task : ParameterToHandle = record {
              name = info.name;
              to_compare = to_compare platform info command op;
            }
            ops ← add_to_operations info.base_address op h.operations
            ok (record h {
              register_tasks = add_task info.base_address task h.register_tasks;
              operations = ops;
            }))
          e1 in
      let task : ParameterToHandle = record {
        name = info.name;
        to_compare = to_compare platform info command op;
      } in
      let (ops, added, e3) =
        >>=-eq-ok (add_to_operations info.base_address op h.operations)
          (λ ops. ok (record h {
            register_tasks = add_task info.base_address task h.register_tasks;
            operations = ops;
          }))
          e2 in
      let at_info : at h.board command.name ≡ ok info = through-eq-ok _ _ found in
      let own = create_swt_operation-address platform h.board info command op at_info made in
      let (set, at_own, set_eq) =
        add_to_operations-eq-ok info.base_address op h.operations ops own c.own_address added in
      rw (sym (ok-injective e3), set_eq) (assign-IsConsistent h info.base_address set task at_own c)

  process_commands-IsConsistent :
      (h next : Handler platform.Double) (commands : List (Command platform.Double))
      → IsConsistent h
      → process_commands platform h commands ≡ ok next
      → IsConsistent next
  unfolding process_commands
  process_commands-IsConsistent h next [] c e = rw (sym (ok-injective e)) c
  process_commands-IsConsistent h next (command ∷ commands) c e =
      let (between, first, rest) =
        >>=-eq-ok (process_command platform h command)
          (λ between. process_commands platform between commands) e in
      process_commands-IsConsistent between next commands
        (process_command-IsConsistent h between command c first) rest

  try_request-IsConsistent :
      (h next : Handler platform.Double) (mess : Bytes) (writes : Bool)
      → IsConsistent h
      → try_request platform h mess ≡ ok (next, writes)
      → IsConsistent next
  unfolding try_request
  try_request-IsConsistent h next mess writes c e =
      let (request, _, taken) =
        >>=-eq-ok (through request_error (parse_request platform mess))
          (λ request. do
            after ← process_commands platform h request.commands
            ok (after, is_write request))
          e in
      let (after, all, pair) =
        >>=-eq-ok (process_commands platform h request.commands)
          (λ after. ok (after, is_write request)) taken in
      let same : (after, is_write request) ≡ (next, writes) = ok-injective pair in
      let first : after ≡ next = ap (λ p. p.0) same in
      rw (sym first) (process_commands-IsConsistent h after request.commands c all)

  -- Whatever the request and the earlier state: after `processMessageFromWinCC` each operation is
  -- kept under the address that it goes to, and the registers with an operation are those with
  -- tasks.
  pub process_message_from_wincc-IsConsistent :
      (h : Handler platform.Double) (mess : Bytes) (read_after_write : Bool)
      → IsConsistent (process_message_from_wincc platform h mess read_after_write).0
  unfolding process_message_from_wincc
  process_message_from_wincc-IsConsistent h mess read_after_write =
      elim (Fallible-cases (try_request platform (reset_execution_data h) mess)) [
        | inl ((next, writes), e) ↦
            rw (process_message_from_wincc, e)
              (try_request-IsConsistent (reset_execution_data h) next mess writes
                (reset-IsConsistent h) e)
        | inr (e, q) ↦ rw (process_message_from_wincc, q) (reset-IsConsistent h)
      ]
