-- ===== src/Command/Router/Outcome.antt =====
-- What `process_one` answers to the command at the front, on every path, and what registration does.
use arcraven_ugv_core.Common.{
  ℕ, ◌≤◌, ◌<◌, ◌++◌, length, ◌≡◌, ◌≢◌, ◌↔◌, ◌⊎◌, inl, inr, refl, true, false, ◌||◌, List, [], ◌∷◌,
  Option, none, some, ◌==◌, if◌then◌else◌, bytes, arith, Bool-cases,
}
use arcraven_ugv_core.Models.UgvCommand.{UgvCommand}
use arcraven_ugv_core.Models.CommandStatus.{CommandStatus}
use arcraven_ugv_core.Models.RejectReason.{RejectReason}
use arcraven_ugv_core.Command.Types.{CommandEnvelope, CommandResult, is_expired}
use arcraven_ugv_core.Command.Router.{
  CommandHandler, empty, callable, CommandRouter, key, assign, find, register_handler, has_handler,
  handler_of, take_front, received, call, execute, process_one, submit,
}

pub received-status :
    (r : CommandResult)
    → (r.status ≡ CommandStatus.none → (received r).status ≡ CommandStatus.received)
      × (r.status ≢ CommandStatus.none → (received r).status ≡ r.status)
      × ((received r).status ≢ CommandStatus.none)
      × ((received r).message ≡ r.message)
      × ((received r).reject_reason ≡ r.reject_reason)
unfolding received
received-status r = (ground arith, ground arith, ground arith, ground arith, ground arith)

abbrev stale : CommandResult
stale = record {
  status = CommandStatus.rejected;
  reject_reason = RejectReason.stale_command;
  message = bytes "expired";
}

module _ {S : Type 0} where
  -- The answer is refused as stale, refused for want of a handler, or the handler's own, with the
  -- status `Received` in place of `None`. The handlers' state changes in the last case alone.
  abbrev pub Answers :
      ℕ → List (ℕ × CommandHandler S) → CommandEnvelope → S → CommandResult → S → Type 0
  Answers now_ns handlers c s result s' =
      ((is_expired c now_ns ≡ true)
        × (result.status ≡ CommandStatus.rejected)
        × (result.reject_reason ≡ RejectReason.stale_command)
        × (s' ≡ s))
      ⊎ ((is_expired c now_ns ≡ false)
          × ((f : CommandEnvelope → S → CommandResult × S)
              → find (key c.command) handlers ≢ some (callable f))
          × (result.status ≡ CommandStatus.rejected)
          × (result.reject_reason ≡ RejectReason.unsupported)
          × (s' ≡ s))
      ⊎ ((f : CommandEnvelope → S → CommandResult × S) × (is_expired c now_ns ≡ false)
          × (find (key c.command) handlers ≡ some (callable f))
          × (s' ≡ (f c s).1)
          × (result.message ≡ (f c s).0.message)
          × (result.reject_reason ≡ (f c s).0.reject_reason)
          × (((f c s).0.status ≡ CommandStatus.none) → (result.status ≡ CommandStatus.received))
          × (((f c s).0.status ≢ CommandStatus.none) → (result.status ≡ (f c s).0.status)))

  call-Answers :
      (now_ns : ℕ) (handlers : List (ℕ × CommandHandler S)) (c : CommandEnvelope) (s : S)
      → is_expired c now_ns ≡ false
      → (o : Option (CommandHandler S)) → find (key c.command) handlers ≡ o
      → let out = call (elim o [ none ↦ empty | some h ↦ h ]) c s in
        Answers now_ns handlers c s out.0 out.1 × (out.0.status ≢ CommandStatus.none)
  unfolding call
  call-Answers now_ns handlers c s fresh none e =
      (inr (inl (fresh, (λ f p. cc), refl, refl, refl)), λ q. cc)
  call-Answers now_ns handlers c s fresh (some empty) e =
      (inr (inl (fresh, (λ f p. cc), refl, refl, refl)), λ q. cc)
  call-Answers now_ns handlers c s fresh (some (callable f)) e =
      let (unset, set, never, message, reason) = received-status (f c s).0 in
      (inr (inr (f, fresh, e, refl, message, reason, unset, set)), never)

  pub execute_expired :
      (now_ns : ℕ) (c : CommandEnvelope) (handler : CommandHandler S) (s : S)
      → is_expired c now_ns ≡ true
      → execute now_ns c handler s ≡ (stale, s)
  unfolding execute
  execute_expired now_ns c handler s old = rw old

  pub execute_fresh :
      (now_ns : ℕ) (c : CommandEnvelope) (handler : CommandHandler S) (s : S)
      → is_expired c now_ns ≡ false
      → execute now_ns c handler s ≡ call handler c s
  unfolding execute
  execute_fresh now_ns c handler s fresh = rw fresh

  execute-Answers :
      (now_ns : ℕ) (handlers : List (ℕ × CommandHandler S)) (c : CommandEnvelope) (s : S)
      → let out = execute now_ns c (handler_of c.command handlers) s in
        Answers now_ns handlers c s out.0 out.1 × (out.0.status ≢ CommandStatus.none)
  unfolding handler_of
  execute-Answers now_ns handlers c s = elim (Bool-cases (is_expired c now_ns)) [
    | inl old ↦ rw (execute_expired now_ns c _ s old) (inl (old, refl, refl, refl), λ q. cc)
    | inr fresh ↦
        rw (execute_fresh now_ns c _ s fresh) (call-Answers now_ns handlers c s fresh _ refl)
  ]

  -- A queue that is not empty yields its front command with an answer, which is never `None`.
  pub process_one-Answers :
      (now_ns : ℕ) (r : CommandRouter S) (s : S) (c : CommandEnvelope) (rest : List CommandEnvelope)
      → r.q ≡ c ∷ rest
      → (result : CommandResult) × (s' : S) × (process_one now_ns r s
          ≡ (some (c, result), record r { q = rest }, s'))
        × Answers now_ns r.handlers c s result s'
        × (result.status ≢ CommandStatus.none)
  unfolding process_one take_front
  process_one-Answers now_ns r s c rest e =
      let (answers, set) = execute-Answers now_ns r.handlers c s in (_, _, rw e, answers, set)

  has-assign :
      (k j : ℕ) (handler : CommandHandler S) (m : List (ℕ × CommandHandler S))
      → find j (assign k handler m) ≡ (if k == j then some handler else find j m)
  unfolding find assign
  has-assign k j handler [] = refl
  has-assign k j handler ((i, old) ∷ m) = ground (arith, has-assign k j handler m)

  -- After a registration the command has exactly the handler given, and every command with another
  -- key keeps its own; so a later registration of a command replaces an earlier one.
  pub find-register_handler :
      (cmd other : UgvCommand) (handler : CommandHandler S) (r : CommandRouter S)
      → (find (key other) (register_handler cmd handler r).handlers
          ≡ (if key cmd == key other then some handler else find (key other) r.handlers))
        × (has_handler other (register_handler cmd handler r)
            ≡ (key cmd == key other || has_handler other r))
  unfolding register_handler has_handler
  find-register_handler cmd other handler r =
      let e = has-assign (key cmd) (key other) handler r.handlers in (e, ground (arith, e))

  -- A command is accepted exactly when the queue has room and the command has an id, and then stands
  -- at the end of the queue. Otherwise nothing changes: a full queue answers `Busy`, whatever the
  -- id, and a queue with room answers `InvalidPayload`.
  pub submit-accepted_iff :
      (c : CommandEnvelope) (r : CommandRouter S)
      → let (result, r') = submit c r in
        ((result.status ≡ CommandStatus.accepted)
          ↔ ((length r.q < r.cfg.max_queue) × (c.command_id ≢ 0)))
        × ((result.status ≡ CommandStatus.accepted) → (r' ≡ record r { q = r.q ++ (c ∷ []) }))
        × ((result.status ≢ CommandStatus.accepted)
            → (r' ≡ r)
              × (result.status ≡ CommandStatus.rejected)
              × ((result.reject_reason ≡ RejectReason.busy) ↔ (r.cfg.max_queue ≤ length r.q))
              × ((result.reject_reason ≡ RejectReason.invalid_payload)
                  ↔ ((length r.q < r.cfg.max_queue) × (c.command_id ≡ 0))))
  unfolding submit
  submit-accepted_iff c r = ground arith
