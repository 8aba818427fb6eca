-- ===== src/Config/Handlers/Answers.antt =====
-- What the default handlers do to the vehicle, once registered.
use Prim.Native.String.{String}
use mathlib.Core.List.{foldl}
use arcraven_ugv_core.Common.{
  ℕ, ◌≡◌, ◌≢◌, ◌↔◌, refl, ◌∙◌, ap, Bool, true, false, ◌&&◌, ◌||◌, not, List, [], ◌∷◌, Option, some,
  ◌==◌, if◌then◌else◌, arith,
}
use arcraven_ugv_core.Models.UgvCommand.{UgvCommand, IsNamed, value}
use arcraven_ugv_core.Models.CommandStatus.{CommandStatus}
use arcraven_ugv_core.Models.RejectReason.{RejectReason}
use arcraven_ugv_core.Command.Types.{CommandEnvelope, CommandResult}
use arcraven_ugv_core.Command.Router.{
  CommandHandler, callable, CommandRouter, key, find, register_handler,
}
use arcraven_ugv_core.Command.Router.Outcome.{find-register_handler}
use arcraven_ugv_core.Core.EStopLatch.{exchange, store_reason, trigger, latched}
use arcraven_ugv_core.Core.StopController.{request_stop, stop_requested}
use arcraven_ugv_core.Subsystems.Stubs.{disable, enabled}
use arcraven_ugv_core.Config.Vehicle.{Vehicle}
use arcraven_ugv_core.Config.Handlers.{
  default_handlers, register_pair, register_default_command_handlers, on_emergency_stop,
  on_shutdown, on_stop, on_wait, on_reboot, on_signal, stub,
}

-- The commands after which the process is to end.
abbrev pub is_ending : UgvCommand → Bool
is_ending UgvCommand.emergency_stop = true
is_ending UgvCommand.shutdown = true
is_ending UgvCommand.reboot = true
is_ending _ = false

abbrev pub is_emergency : UgvCommand → Bool
is_emergency UgvCommand.emergency_stop = true
is_emergency _ = false

abbrev pub is_stop : UgvCommand → Bool
is_stop UgvCommand.stop = true
is_stop _ = false

-- A handler for `cmd` asks for the end of the process only for the commands that mean it, latches
-- for EmergencyStop alone, disables the drives for Stop alone and only if nothing is latched, and
-- rejects in just that other case of Stop. It never enables the drives, and leaves the rest alone.
pub record Behaves (cmd : UgvCommand) (f : CommandEnvelope → Vehicle → CommandResult × Vehicle)
    (c : CommandEnvelope) (v : Vehicle) : Type 0 where
  pub stops : stop_requested (f c v).1.stop ≡ (is_ending cmd || stop_requested v.stop)
  pub latches : latched (f c v).1.estop ≡ (is_emergency cmd || latched v.estop)
  pub drives :
      enabled (f c v).1.drives
      ≡ (if is_stop cmd && not (latched v.estop) then false else enabled v.drives)
  pub rejects :
      ((f c v).0.status ≡ CommandStatus.rejected)
      ↔ ((is_stop cmd ≡ true) × (latched v.estop ≡ true))
  pub answers : (f c v).0.status ≢ CommandStatus.none
  pub state_kept : (f c v).1.state ≡ v.state
  pub link_kept : (f c v).1.link ≡ v.link
  pub files_kept : (f c v).1.files ≡ v.files

module _ (c : CommandEnvelope) (v : Vehicle) where
  -- A handler that only accepts.
  accepts-Behaves :
      (cmd : UgvCommand) (f : CommandEnvelope → Vehicle → CommandResult × Vehicle)
      → (is_ending cmd ≡ false) × (is_emergency cmd ≡ false) × (is_stop cmd ≡ false)
      → (f c v).1 ≡ v
      → (f c v).0.status ≡ CommandStatus.accepted
      → Behaves cmd f c v
  accepts-Behaves cmd f (e1, e2, e3) same status = record {
    stops = rw (same, e1) refl;
    latches = rw (same, e2) refl;
    drives = rw (same, e3) refl;
    rejects = ground (arith, status, e3);
    answers = λ q. ground (arith, status, q);
    state_kept = rw same refl;
    link_kept = rw same refl;
    files_kept = rw same refl;
  }

  pub stub-Behaves :
      (cmd : UgvCommand) (label : String)
      → (is_ending cmd ≡ false) × (is_emergency cmd ≡ false) × (is_stop cmd ≡ false)
      → Behaves cmd (stub label) c v
  unfolding stub
  stub-Behaves cmd label e = accepts-Behaves cmd (stub label) e refl refl

  pub emergency_stop-Behaves : Behaves UgvCommand.emergency_stop on_emergency_stop c v
  unfolding on_emergency_stop trigger exchange store_reason latched request_stop stop_requested
  emergency_stop-Behaves = record {
    stops = refl;
    latches = ground arith;
    drives = refl;
    rejects = ground arith;
    answers = λ q. cc;
    state_kept = refl;
    link_kept = refl;
    files_kept = refl;
  }

  pub shutdown-Behaves : Behaves UgvCommand.shutdown on_shutdown c v
  unfolding on_shutdown request_stop stop_requested
  shutdown-Behaves = record {
    stops = refl;
    latches = refl;
    drives = refl;
    rejects = ground arith;
    answers = λ q. cc;
    state_kept = refl;
    link_kept = refl;
    files_kept = refl;
  }

  pub reboot-Behaves : Behaves UgvCommand.reboot on_reboot c v
  unfolding on_reboot request_stop stop_requested
  reboot-Behaves = record {
    stops = refl;
    latches = refl;
    drives = refl;
    rejects = ground arith;
    answers = λ q. cc;
    state_kept = refl;
    link_kept = refl;
    files_kept = refl;
  }

  pub wait-Behaves : Behaves UgvCommand.wait on_wait c v
  unfolding on_wait
  wait-Behaves = accepts-Behaves UgvCommand.wait on_wait (refl, refl, refl) refl refl

  pub stop-Behaves : (s : RejectReason) → Behaves UgvCommand.stop (on_stop s) c v
  unfolding on_stop disable enabled latched
  stop-Behaves s = record {
    stops = ground arith;
    latches = ground arith;
    drives = ground arith;
    rejects = ground arith;
    answers = λ q. ground arith;
    state_kept = ground arith;
    link_kept = ground arith;
    files_kept = ground arith;
  }

  pub signal-Behaves : Behaves UgvCommand.signal on_signal c v
  unfolding on_signal
  signal-Behaves =
      accepts-Behaves UgvCommand.signal on_signal (refl, refl, refl) (ground arith) (ground arith)

-- The handler registered last for `k`, if any is, or else `o`.
last_for :
    ℕ
    → List (UgvCommand × CommandHandler Vehicle)
    → Option (CommandHandler Vehicle)
    → Option (CommandHandler Vehicle)
last_for k [] o = o
last_for k ((cmd, h) ∷ hs) o = last_for k hs (if key cmd == k then some h else o)

find-registered :
    (cmd : UgvCommand) (hs : List (UgvCommand × CommandHandler Vehicle)) (r : CommandRouter Vehicle)
    → find (key cmd) (foldl register_pair r hs).handlers
      ≡ last_for (key cmd) hs (find (key cmd) r.handlers)
unfolding last_for
find-registered cmd [] r = refl
find-registered cmd ((c, h) ∷ hs) r =
    find-registered cmd hs (register_handler c h r)
    ∙ ap (last_for (key cmd) hs) (find-register_handler c cmd h r).0

abbrev Registered : RejectReason → Option (CommandHandler Vehicle) → UgvCommand → Type 0
Registered s o cmd =
    (f : CommandEnvelope → Vehicle → CommandResult × Vehicle) × (last_for (key cmd)
        (default_handlers s) o
      ≡ some (callable f))
    × ((c : CommandEnvelope) (v : Vehicle) → Behaves cmd f c v)

every-Registered :
    (s : RejectReason) (o : Option (CommandHandler Vehicle)) (cmd : UgvCommand)
    → IsNamed cmd
    → Registered s o cmd
unfolding last_for default_handlers key value
every-Registered s o UgvCommand.emergency_stop h = (on_emergency_stop, refl, emergency_stop-Behaves)
every-Registered s o UgvCommand.shutdown h = (on_shutdown, refl, shutdown-Behaves)
every-Registered s o UgvCommand.reboot h = (on_reboot, refl, reboot-Behaves)
every-Registered s o UgvCommand.wait h = (on_wait, refl, wait-Behaves)
every-Registered s o UgvCommand.stop h = (on_stop s, refl, λ c v. stop-Behaves c v s)
every-Registered s o UgvCommand.signal h = (on_signal, refl, signal-Behaves)
every-Registered s o (UgvCommand.unnamed n) h = absurd h
every-Registered s o _ h = (stub _, refl, λ c v. stub-Behaves c v _ _ (refl, refl, refl))

-- Once the defaults are registered, over whatever was registered before, every named command has a
-- handler, and that handler stops, latches, moves the drives and rejects just as `Behaves` says.
pub register_default_command_handlers-Behaves :
    (s : RejectReason) (r : CommandRouter Vehicle) (cmd : UgvCommand)
    → IsNamed cmd
    → (f : CommandEnvelope → Vehicle → CommandResult × Vehicle) × (find
          (key cmd)
          (register_default_command_handlers s r).handlers
        ≡ some (callable f))
      × ((c : CommandEnvelope) (v : Vehicle) → Behaves cmd f c v)
unfolding register_default_command_handlers
register_default_command_handlers-Behaves s r cmd h =
    let (f, found, behaves) = every-Registered s (find (key cmd) r.handlers) cmd h in
    (f, find-registered cmd (default_handlers s) r ∙ found, behaves)
