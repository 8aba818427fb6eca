-- ===== src/Config/Handlers/Tidy.antt =====
-- What handlers leave alone: the bridge, its files and the persistent state.
use arcraven_ugv_core.Common.{ℕ, ◌≡◌, refl, inl, inr, All, Bool-cases}
use arcraven_ugv_core.Models.UgvCommand.{UgvCommand}
use arcraven_ugv_core.Models.RejectReason.{RejectReason}
use arcraven_ugv_core.Command.Types.{CommandEnvelope, is_expired}
use arcraven_ugv_core.Command.Router.{
  CommandHandler, empty, callable, CommandRouter, handler_of, call, execute,
}
use arcraven_ugv_core.Config.Vehicle.{Vehicle}
use arcraven_ugv_core.Config.Handlers.{register_default_command_handlers}
use arcraven_ugv_core.Config.Handlers.Entries.{BehavesPair, registered-All, handler_of-All}

pub record Tidily (v w : Vehicle) : Type 0 where
  pub state_kept : w.state ≡ v.state
  pub link_kept : w.link ≡ v.link
  pub files_kept : w.files ≡ v.files

Tidily-refl : (v : Vehicle) → Tidily v v
Tidily-refl v = record { state_kept = refl; link_kept = refl; files_kept = refl }

abbrev IsTidy : CommandHandler Vehicle → Type 0
IsTidy empty = Unit
IsTidy (callable f) = (c : CommandEnvelope) (v : Vehicle) → Tidily v (f c v).1

abbrev TidyEntry : {K : Type 0} → K × CommandHandler Vehicle → Type 0
TidyEntry (k, h) = IsTidy h

abbrev pub HasTidy : CommandRouter Vehicle → Type 0
HasTidy r = All TidyEntry r.handlers

BehavesPair-Tidy : (p : UgvCommand × CommandHandler Vehicle) → BehavesPair p → TidyEntry p
BehavesPair-Tidy (cmd, empty) b = tt
BehavesPair-Tidy (cmd, callable f) b = λ c v.
    let x = b c v in
    record { state_kept = x.state_kept; link_kept = x.link_kept; files_kept = x.files_kept }

pub register_default_command_handlers-Tidy :
    (s : RejectReason) (r : CommandRouter Vehicle)
    → HasTidy r
    → HasTidy (register_default_command_handlers s r)
register_default_command_handlers-Tidy s r q = registered-All TidyEntry s r BehavesPair-Tidy q

call-Tidily :
    (h : CommandHandler Vehicle) (c : CommandEnvelope) (v : Vehicle)
    → IsTidy h
    → Tidily v (call h c v).1
unfolding call
call-Tidily empty c v q = Tidily-refl v
call-Tidily (callable f) c v q = q c v

pub execute-Tidily :
    (now_ns : ℕ) (c : CommandEnvelope) (v : Vehicle) (r : CommandRouter Vehicle)
    → HasTidy r
    → Tidily v (execute now_ns c (handler_of c.command r.handlers) v).1
unfolding execute
execute-Tidily now_ns c v r q = elim (Bool-cases (is_expired c now_ns)) [
  | inl old ↦ rw old (Tidily-refl v)
  | inr fresh ↦ rw fresh (
      call-Tidily (handler_of c.command r.handlers) c v
        (handler_of-All TidyEntry IsTidy c.command tt (λ j h e p. p) r.handlers q))
]
