-- ===== src/Config/Handlers/Quiet.antt =====
-- Which handlers latch the emergency stop.
use arcraven_ugv_core.Common.{
  ℕ, ◌≡◌, inl, inr, true, false, not, ◌&&◌, List, ◌==◌, arith, All, Bool-cases,
}
use arcraven_ugv_core.Models.UgvCommand.{UgvCommand, value}
use arcraven_ugv_core.Models.RejectReason.{RejectReason}
use arcraven_ugv_core.Command.Types.{CommandEnvelope, is_expired}
use arcraven_ugv_core.Command.Router.{
  CommandHandler, empty, callable, CommandRouter, key, handler_of, call, execute,
}
use arcraven_ugv_core.Core.EStopLatch.{latched}
use arcraven_ugv_core.Config.Vehicle.{Vehicle}
use arcraven_ugv_core.Config.Handlers.{register_default_command_handlers}
use arcraven_ugv_core.Config.Handlers.Entries.{BehavesPair, registered-All, handler_of-All}

-- A handler that does not latch.
abbrev IsQuiet : CommandHandler Vehicle → Type 0
IsQuiet empty = Unit
IsQuiet (callable f) =
    (c : CommandEnvelope) (v : Vehicle) → latched (f c v).1.estop ≡ true → latched v.estop ≡ true

-- What an entry for `k` may be.
abbrev QuietEntry : ℕ × CommandHandler Vehicle → Type 0
QuietEntry (k, h) = (k == 700) ≡ false → IsQuiet h

abbrev pub HasQuiet : CommandRouter Vehicle → Type 0
HasQuiet r = All QuietEntry r.handlers

BehavesPair-Quiet :
    (p : UgvCommand × CommandHandler Vehicle) → BehavesPair p → QuietEntry (key p.0, p.1)
unfolding key value
BehavesPair-Quiet (cmd, empty) b n = tt
BehavesPair-Quiet (UgvCommand.emergency_stop, callable f) b n = absurd (ground (arith, n))
BehavesPair-Quiet (cmd, callable f) b n = λ c v l. ground (arith, (b c v).latches, l)

pub register_default_command_handlers-Quiet :
    (s : RejectReason) (r : CommandRouter Vehicle)
    → HasQuiet r
    → HasQuiet (register_default_command_handlers s r)
register_default_command_handlers-Quiet s r q = registered-All QuietEntry s r BehavesPair-Quiet q

same_key : (j k : ℕ) → (j == k) ≡ true → (k == 700) ≡ false → (j == 700) ≡ false
same_key j k e n = ground (arith, e, n)

handler_of-Quiet :
    (cmd : UgvCommand) (m : List (ℕ × CommandHandler Vehicle))
    → (key cmd == 700) ≡ false
    → All QuietEntry m
    → IsQuiet (handler_of cmd m)
handler_of-Quiet cmd m n q =
    handler_of-All QuietEntry IsQuiet cmd tt (λ j h e p. p (same_key j (key cmd) e n)) m q

call-Quiet :
    (h : CommandHandler Vehicle) (c : CommandEnvelope) (v : Vehicle)
    → IsQuiet h
    → latched (call h c v).1.estop ≡ true
    → latched v.estop ≡ true
unfolding call
call-Quiet empty c v q l = l
call-Quiet (callable f) c v q l = q c v l

-- A command that is not a fresh EmergencyStop, or finds the stop latched, latches nothing.
pub execute-Quiet :
    (now_ns : ℕ) (c : CommandEnvelope) (v : Vehicle) (r : CommandRouter Vehicle)
    → HasQuiet r
    → (key c.command == 700 && (not (is_expired c now_ns) && not (latched v.estop))) ≡ false
    → latched (execute now_ns c (handler_of c.command r.handlers) v).1.estop ≡ true
    → latched v.estop ≡ true
unfolding execute
execute-Quiet now_ns c v r q w = elim (Bool-cases (is_expired c now_ns)) [
  | inl old ↦ rw old (λ l. l)
  | inr fresh ↦ rw fresh (elim (Bool-cases (key c.command == 700)) [
    | inl emergency ↦ λ l. ground (arith, w, fresh, emergency)
    | inr other ↦
        call-Quiet (handler_of c.command r.handlers) c v
          (handler_of-Quiet c.command r.handlers other q)
  ])
]
