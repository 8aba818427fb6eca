-- ===== src/Config/Handlers/Safe.antt =====
-- What no handler may do, and that no default handler does.
use arcraven_ugv_core.Common.{
  ℕ, ◌≡◌, refl, inl, inr, true, false, List, [], ◌∷◌, arith, All, Bool-cases,
}
use arcraven_ugv_core.Models.UgvCommand.{UgvCommand}
use arcraven_ugv_core.Models.RejectReason.{RejectReason}
use arcraven_ugv_core.Command.Types.{CommandEnvelope, CommandResult, is_expired}
use arcraven_ugv_core.Command.Router.{
  CommandHandler, empty, callable, CommandRouter, handler_of, take_front, call, execute,
  process_one,
}
use arcraven_ugv_core.Core.EStopLatch.{latched}
use arcraven_ugv_core.Core.StopController.{stop_requested}
use arcraven_ugv_core.Subsystems.Stubs.{enabled}
use arcraven_ugv_core.Config.Vehicle.{Vehicle}
use arcraven_ugv_core.Config.Handlers.{register_default_command_handlers}
use arcraven_ugv_core.Config.Handlers.Entries.{BehavesPair, registered-All, handler_of-All}
use arcraven_ugv_core.Config.Handlers.Answers.{Behaves, is_ending, is_emergency}

-- From `v` to `w` no stop is forgotten, no latch is released, no drive is switched on, and a new
-- latch asks for the stop.
pub record Safely (v w : Vehicle) : Type 0 where
  pub stop_kept : stop_requested v.stop ≡ true → stop_requested w.stop ≡ true
  pub latch_kept : latched v.estop ≡ true → latched w.estop ≡ true
  pub drives_off : enabled v.drives ≡ false → enabled w.drives ≡ false
  pub latch_stops :
      (latched v.estop ≡ true → stop_requested v.stop ≡ true)
      → latched w.estop ≡ true
      → stop_requested w.stop ≡ true

pub Safely-refl : (v : Vehicle) → Safely v v
Safely-refl v = record {
  stop_kept = λ h. h;
  latch_kept = λ h. h;
  drives_off = λ h. h;
  latch_stops = λ h. h;
}

pub Safely-trans : {u v w : Vehicle} → Safely u v → Safely v w → Safely u w
Safely-trans a b = record {
  stop_kept = λ h. b.stop_kept (a.stop_kept h);
  latch_kept = λ h. b.latch_kept (a.latch_kept h);
  drives_off = λ h. b.drives_off (a.drives_off h);
  latch_stops = λ h. b.latch_stops (a.latch_stops h);
}

abbrev pub IsSafe : CommandHandler Vehicle → Type 0
IsSafe empty = Unit
IsSafe (callable f) = (c : CommandEnvelope) (v : Vehicle) → Safely v (f c v).1

emergency_ends : (cmd : UgvCommand) → is_emergency cmd ≡ true → is_ending cmd ≡ true
emergency_ends UgvCommand.emergency_stop e = refl
emergency_ends _ e = absurd (ground (arith, e))

Behaves-Safe :
    (cmd : UgvCommand) {f : CommandEnvelope → Vehicle → CommandResult × Vehicle}
    → ((c : CommandEnvelope) (v : Vehicle) → Behaves cmd f c v)
    → IsSafe (callable f)
Behaves-Safe cmd h c v =
    let b = h c v in
    record {
      stop_kept = λ e. ground (arith, b.stops);
      latch_kept = λ e. ground (arith, b.latches);
      drives_off = λ e. ground (arith, b.drives);
      latch_stops = λ k e. ground (arith, k, e, b.stops, b.latches, emergency_ends cmd);
    }

abbrev pub SafeEntry : {K : Type 0} → K × CommandHandler Vehicle → Type 0
SafeEntry (k, h) = IsSafe h

BehavesPair-Safe : (p : UgvCommand × CommandHandler Vehicle) → BehavesPair p → SafeEntry p
BehavesPair-Safe (cmd, empty) b = tt
BehavesPair-Safe (cmd, callable f) b = Behaves-Safe cmd b

abbrev pub HasSafe : CommandRouter Vehicle → Type 0
HasSafe r = All SafeEntry r.handlers

pub register_default_command_handlers-Safe :
    (s : RejectReason) (r : CommandRouter Vehicle)
    → HasSafe r
    → HasSafe (register_default_command_handlers s r)
register_default_command_handlers-Safe s r q = registered-All SafeEntry s r BehavesPair-Safe q

pub handler_of-Safe :
    (cmd : UgvCommand) (m : List (ℕ × CommandHandler Vehicle))
    → All SafeEntry m
    → IsSafe (handler_of cmd m)
handler_of-Safe cmd m q = handler_of-All SafeEntry IsSafe cmd tt (λ j h e p. p) m q

call-Safely :
    (h : CommandHandler Vehicle) (c : CommandEnvelope) (v : Vehicle)
    → IsSafe h
    → Safely v (call h c v).1
unfolding call
call-Safely empty c v p = Safely-refl v
call-Safely (callable f) c v p = p c v

pub execute-Safely :
    (now_ns : ℕ) (c : CommandEnvelope) (h : CommandHandler Vehicle) (v : Vehicle)
    → IsSafe h
    → Safely v (execute now_ns c h v).1
unfolding execute
execute-Safely now_ns c h v p = elim (Bool-cases (is_expired c now_ns)) [
  | inl old ↦ rw old (Safely-refl v)
  | inr fresh ↦ rw fresh (call-Safely h c v p)
]

-- With safe handlers, one command is processed safely, and the handlers stay.
pub process_one-Safely :
    (now_ns : ℕ) (r : CommandRouter Vehicle) (v : Vehicle)
    → HasSafe r
    → let (o, r', w) = process_one now_ns r v in Safely v w × HasSafe r'
unfolding process_one take_front
process_one-Safely now_ns r v q = by_queue r.q
  where
    by_queue :
        (cs : List CommandEnvelope)
        → let (o, r', w) = process_one now_ns (record r { q = cs }) v in Safely v w × HasSafe r'
    by_queue [] = (Safely-refl v, q)
    by_queue (c ∷ cs) = (execute-Safely now_ns c _ v (handler_of-Safe c.command r.handlers q), q)
