-- ===== src/Config/Ticks/Control.antt =====
-- A round of the control thread, with the default handlers, against a specification on what matters
-- for safety: four values in place of the vehicle, and one step of them for each command.
use mathlib.Core.List.{foldl}
use arcraven_ugv_core.Common.{
  ℕ, ◌≡◌, ◌≢◌, ◌↔◌, inl, inr, refl, ◌∙◌, ap, Bool, true, false, ◌&&◌, ◌||◌, not, List, [], ◌∷◌,
  some, if◌then◌else◌, arith, Bool-cases, All, All-take, take, drop,
}
use arcraven_ugv_core.Models.UgvCommand.{UgvCommand, IsNamed}
use arcraven_ugv_core.Models.CommandStatus.{CommandStatus}
use arcraven_ugv_core.Models.CommandAuthority.{value as authority_value}
use arcraven_ugv_core.Models.RejectReason.{RejectReason}
use arcraven_ugv_core.Command.Types.{CommandEnvelope, CommandResult, is_expired}
use arcraven_ugv_core.Command.Router.{
  CommandHandler, callable, CommandRouter, key, find, handler_of, received, call,
}
use arcraven_ugv_core.Command.Router.Outcome.{execute_expired, execute_fresh}
use arcraven_ugv_core.Command.Router.Batch.{serve, process_some-foldl}
use arcraven_ugv_core.Core.EStopLatch.{latched}
use arcraven_ugv_core.Core.StopController.{stop_requested}
use arcraven_ugv_core.Subsystems.Stubs.{enabled}
use arcraven_ugv_core.Config.Vehicle.{Vehicle}
use arcraven_ugv_core.Config.Handlers.{register_default_command_handlers}
use arcraven_ugv_core.Config.Handlers.Answers.{
  Behaves, is_ending, is_emergency, is_stop, register_default_command_handlers-Behaves,
}
use arcraven_ugv_core.Config.Ticks.{is_rejected, on_processed, max_n, control_round}

pub record Summary : Type 0 where
  pub stopping : Bool
  pub emergency : Bool
  pub moving : Bool
  pub authority : ℕ

unfoldable pub summary : Vehicle → Summary
summary v = record {
  stopping = stop_requested v.stop;
  emergency = latched v.estop;
  moving = enabled v.drives;
  authority = v.state.last_authority;
}

-- What a named command is meant to do.
unfoldable pub effect : ℕ → Summary → CommandEnvelope → Summary
effect now_ns m c = if is_expired c now_ns then m else record {
  stopping = is_ending c.command || m.stopping;
  emergency = is_emergency c.command || m.emergency;
  moving = if is_stop c.command && not m.emergency then false else m.moving;
  authority = if is_stop c.command && m.emergency then m.authority else authority_value c.authority;
}

abbrev pub HasName : CommandEnvelope → Type 0
HasName c = IsNamed c.command

on_processed-summary :
    (c : CommandEnvelope) (res : CommandResult) (v : Vehicle)
    → summary (on_processed (c, res) v) ≡ record (summary v) {
      authority =
          if is_rejected res.status then v.state.last_authority else authority_value c.authority;
    }
unfolding summary on_processed
on_processed-summary c res v = refl

is_rejected_iff :
    (st : CommandStatus) (a b : Bool)
    → (st ≡ CommandStatus.rejected) ↔ ((a ≡ true) × (b ≡ true))
    → is_rejected st ≡ (a && b)
is_rejected_iff st a b h = ground arith

Behaves-summary :
    (c : CommandEnvelope) (f : CommandEnvelope → Vehicle → CommandResult × Vehicle) (v : Vehicle)
    → Behaves c.command f c v
    → record (summary (f c v).1) {
      authority =
          if is_rejected (f c v).0.status
          then (f c v).1.state.last_authority
          else authority_value c.authority;
    }
      ≡ record {
        stopping = is_ending c.command || stop_requested v.stop;
        emergency = is_emergency c.command || latched v.estop;
        moving = if is_stop c.command && not (latched v.estop) then false else enabled v.drives;
        authority =
            if is_stop c.command && latched v.estop
            then v.state.last_authority
            else authority_value c.authority;
      }
unfolding summary
Behaves-summary c f v b = rw (
  b.stops,
  b.latches,
  b.drives,
  is_rejected_iff _ _ _ b.rejects,
  ap (λ t. t.last_authority) b.state_kept,
)

handler_of_found :
    (cmd : UgvCommand) (hs : List (ℕ × CommandHandler Vehicle)) (h : CommandHandler Vehicle)
    → find (key cmd) hs ≡ some h
    → handler_of cmd hs ≡ h
unfolding handler_of
handler_of_found cmd hs h e = rw (handler_of, e)

received_set : (r : CommandResult) → r.status ≢ CommandStatus.none → received r ≡ r
unfolding received
received_set r h = ground arith

call_set :
    (f : CommandEnvelope → Vehicle → CommandResult × Vehicle) (c : CommandEnvelope) (v : Vehicle)
    → (f c v).0.status ≢ CommandStatus.none
    → call (callable f) c v ≡ f c v
unfolding call
call_set f c v h = rw (received_set (f c v).0 h)

-- The handlers are the default ones.
module _ (s : RejectReason) (r0 : CommandRouter Vehicle) (now_ns : ℕ)
    (handlers : List (ℕ × CommandHandler Vehicle))
    (defaults : handlers ≡ (register_default_command_handlers s r0).handlers) where
  call_default :
      (c : CommandEnvelope) (v : Vehicle)
      → HasName c
      → (f : CommandEnvelope → Vehicle → CommandResult × Vehicle) × Behaves c.command f c v
        × (call (handler_of c.command handlers) c v ≡ f c v)
  call_default c v h =
      let (f, found, behaves) = register_default_command_handlers-Behaves s r0 c.command h in
      (
        f,
        behaves c v,
        rw (defaults, handler_of_found c.command _ _ found) (call_set f c v (behaves c v).answers),
      )

  serve_expired :
      (c : CommandEnvelope) (v : Vehicle)
      → is_expired c now_ns ≡ true
      → summary (serve now_ns on_processed handlers v c) ≡ effect now_ns (summary v) c
  unfolding serve effect summary
  serve_expired c v old =
      rw (execute_expired now_ns c (handler_of c.command handlers) v old, old)
        (on_processed-summary c _ v)

  serve_fresh :
      (c : CommandEnvelope) (v : Vehicle)
      → HasName c
      → is_expired c now_ns ≡ false
      → summary (serve now_ns on_processed handlers v c) ≡ effect now_ns (summary v) c
  unfolding serve effect summary
  serve_fresh c v h fresh =
      let (f, behaves, called) = call_default c v h in
      rw (execute_fresh now_ns c (handler_of c.command handlers) v fresh, fresh, called)
        (on_processed-summary c _ _ ∙ Behaves-summary c f v behaves)

  serve-effect :
      (c : CommandEnvelope) (v : Vehicle)
      → HasName c
      → summary (serve now_ns on_processed handlers v c) ≡ effect now_ns (summary v) c
  serve-effect c v h = elim (Bool-cases (is_expired c now_ns)) [
    | inl old ↦ serve_expired c v old
    | inr fresh ↦ serve_fresh c v h fresh
  ]

  batch-effect :
      (q : List CommandEnvelope) (v : Vehicle)
      → All HasName q
      → summary (foldl (serve now_ns on_processed handlers) v q)
        ≡ foldl (effect now_ns) (summary v) q
  batch-effect [] v h = refl
  batch-effect (c ∷ q) v h =
      batch-effect q (serve now_ns on_processed handlers v c) h.1
      ∙ ap (λ m. foldl (effect now_ns) m q) (serve-effect c v h.0)

-- A round with the default handlers, and a logger whose fatal calls come back: nothing is touched
-- while the stop is latched. Otherwise the first eight commands leave the queue, and what becomes
-- of the stop flag, the latch, the drives and the remembered authority is what the commands mean to
-- do, one after the other; so a command behind an EmergencyStop in the same round still takes
-- effect. The commands must be named ones.
pub control_round-effect :
    (s : RejectReason) (r0 r : CommandRouter Vehicle) (now_ns : ℕ) (v : Vehicle)
    → r.handlers ≡ (register_default_command_handlers s r0).handlers
    → All HasName r.q
    → let (r', v') = control_round now_ns r v in
      ((latched v.estop ≡ true) → (r' ≡ r) × (v' ≡ v))
      × ((latched v.estop ≡ false)
          → (r' ≡ record r { q = drop max_n r.q })
            × (summary v' ≡ foldl (effect now_ns) (summary v) (take max_n r.q)))
unfolding control_round
control_round-effect s r0 r now_ns v defaults named = (
  (λ e. rw e (refl, refl)),
  (λ e.
      rw (e, process_some-foldl now_ns on_processed max_n r v)
        (
          refl,
          batch-effect s r0 now_ns r.handlers defaults (take max_n r.q) v
              (All-take HasName max_n r.q named),
        )),
)
