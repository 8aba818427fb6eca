-- ===== src/Config/System/Hangs.antt =====
-- An emergency stop under a logger that flushes every line, as main.cpp sets it up.
use mathlib.Core.Path.{subst}
use arcraven_ugv_core.Common.{
  ℕ, ◌≡◌, ◌≢◌, inl, inr, refl, ap, sym, ◌∙◌, Bool, true, false, Bytes, arith, Bool-cases,
}
use arcraven_ugv_core.Models.RejectReason.{RejectReason}
use arcraven_ugv_core.Command.Router.{make}
use arcraven_ugv_core.Core.EStopLatch.{latched}
use arcraven_ugv_core.Core.StopController.{stop_requested}
use arcraven_ugv_core.Core.StateStore.{Disk}
use arcraven_ugv_core.Subsystems.Interfaces.{SensorFrame}
use arcraven_ugv_core.Utils.Logger.{Logger}
use arcraven_ugv_core.Config.Handlers.Quiet.{HasQuiet, register_default_command_handlers-Quiet}
use arcraven_ugv_core.Config.Ticks.{control_start, sensor_round}
use arcraven_ugv_core.Config.Boot.{UgvCore}
use arcraven_ugv_core.Config.Boot.Outcome.{IsUp}
use arcraven_ugv_core.Config.Runtime.Safety.{end_shutdown-vehicle}
use arcraven_ugv_core.Config.System.{
  Task, main_task, estop_task, control_task, sensor_task, io_task, persist_task, Pc, ended, saving,
  has_returned, Shared, remember, publish, client_write,
}
use arcraven_ugv_core.Config.System.Moves.{
  Move, serves, stops, senses, asks, requests, finishes, System, Step, moves, joins, writes, Reach,
  here, next, start, at,
}
use arcraven_ugv_core.Config.System.Kept.{Move-handlers, Reach-Kept}
use arcraven_ugv_core.Config.System.Places.{Holds}
use arcraven_ugv_core.Config.System.Joins.{Joined}
use arcraven_ugv_core.Config.System.Safety.{
  Handling, after_step, others-latched, Inv, Reach-Inv, up-Inv,
}
use arcraven_ugv_core.Config.System.Locked.{
  Sane, Flushes, Move-flush_always, Move-Sane, control-Caught,
}

abbrev pub is_returned : Pc → Bool
is_returned (has_returned code) = true
is_returned _ = false

module _ {D : Type 0} (ulong : ℕ) (show : D → Bytes) where
  -- With the control task caught in the handling of an EmergencyStop, no task asks for the stop.
  Move-stop :
      {m m' : Shared D} {t : Task} {p p' : Pc}
      → Move ulong show m t p m' p'
      → Sane p
      → Holds p m.core.vehicle
      → (t ≡ control_task → Handling p)
      → stop_requested m.core.vehicle.stop ≡ false
      → stop_requested m'.core.vehicle.stop ≡ false
  unfolding control_start remember publish sensor_round
  Move-stop asks x h c n = absurd x
  Move-stop stops x h c n = absurd x
  Move-stop requests x h c n = absurd (ground (arith, h, n))
  Move-stop (serves now_ns cmd hd r res v e w y) x h c n = absurd (c refl)
  Move-stop (senses now_ns frame joints v e) x h c n =
      ap (λ out. stop_requested out.2.stop) (sym e) ∙ n
  Move-stop {m = m} (finishes env result core e) x h c n =
      ap (λ k. stop_requested k.vehicle.stop) (sym (ap (λ out. out.1) e))
      ∙ ap (λ v. stop_requested v.stop) (end_shutdown-vehicle env m.core).0
      ∙ n
  Move-stop _ x h c n = n

  pub record CaughtInv (s : System D) : Type 0 where
    pub inv : Inv ulong show s
    pub quiet : HasQuiet s.mem.core.cmd_router
    pub flushes : Flushes s.mem
    pub sane : (t : Task) → Sane (s.pc t)
    pub caught : latched s.mem.core.vehicle.estop ≡ true → Handling (s.pc control_task)

  other-Caught :
      {H : Type 0} {t : Task} {p p' : Pc} {m m' : Shared D}
      → Move ulong show m t p m' p'
      → t ≢ control_task
      → (latched m.core.vehicle.estop ≡ true → H)
      → latched m'.core.vehicle.estop ≡ true
      → H
  other-Caught mv n k h = k (ap latched (sym (others-latched ulong show mv n)) ∙ h)

  moved-Caught :
      (f : Task → Pc) (t : Task) (p : Pc) {m m' : Shared D}
      → Move ulong show m t (f t) m' p
      → HasQuiet m.core.cmd_router
      → Sane (f t)
      → (latched m.core.vehicle.estop ≡ true → Handling (f control_task))
      → latched m'.core.vehicle.estop ≡ true
      → Handling (at f t p control_task)
  moved-Caught f control_task p mv q x k h = control-Caught ulong show mv q x k h
  moved-Caught f main_task p mv q x k h = other-Caught mv (λ e. cc) k h
  moved-Caught f estop_task p mv q x k h = other-Caught mv (λ e. cc) k h
  moved-Caught f sensor_task p mv q x k h = other-Caught mv (λ e. cc) k h
  moved-Caught f io_task p mv q x k h = other-Caught mv (λ e. cc) k h
  moved-Caught f persist_task p mv q x k h = other-Caught mv (λ e. cc) k h

  Step-Caught :
      {s u : System D} → Step ulong show s u → CaughtInv s → Inv ulong show u → CaughtInv u
  unfolding client_write
  Step-Caught {s} (moves {t} {m} {p} alive mv) i j = record {
    inv = j;
    quiet = rw (Move-handlers ulong show mv) i.quiet;
    flushes = Move-flush_always ulong show mv ∙ i.flushes;
    sane =
        after_step (λ u x. Sane x) s.pc t p (Move-Sane ulong show mv i.flushes (i.sane t)) i.sane;
    caught = moved-Caught s.pc t p mv i.quiet (i.sane t) i.caught;
  }
  Step-Caught {s} (joins e all) i j = record {
    inv = j;
    quiet = i.quiet;
    flushes = i.flushes;
    sane = after_step (λ u x. Sane x) s.pc main_task saving tt i.sane;
    caught = i.caught;
  }
  Step-Caught (writes text) i j = record {
    inv = j;
    quiet = i.quiet;
    flushes = i.flushes;
    sane = i.sane;
    caught = i.caught;
  }

  pub Reach-Caught : {s u : System D} → Reach ulong show s u → CaughtInv s → CaughtInv u
  Reach-Caught here i = i
  Reach-Caught (next r st) i =
      let before = Reach-Caught r i in
      Step-Caught st before (Reach-Inv ulong show (next here st) before.inv)

  Step-stop :
      {s u : System D}
      → Step ulong show s u
      → CaughtInv s
      → latched s.mem.core.vehicle.estop ≡ true
      → stop_requested s.mem.core.vehicle.stop ≡ false
      → stop_requested u.mem.core.vehicle.stop ≡ false
  unfolding client_write
  Step-stop {s} (moves {t} alive mv) i h n =
      Move-stop mv (i.sane t) (i.inv.holds t)
        (λ e. subst (λ u. Handling (s.pc u)) (sym e) (i.caught h)) n
  Step-stop (joins e all) i h n = n
  Step-stop (writes text) i h n = n

  pub Reach-stop :
      {s u : System D}
      → Reach ulong show s u
      → CaughtInv s
      → latched s.mem.core.vehicle.estop ≡ true
      → stop_requested s.mem.core.vehicle.stop ≡ false
      → stop_requested u.mem.core.vehicle.stop ≡ false
  Reach-stop here i h n = n
  Reach-stop (next r st) i h n =
      let before = Reach-Caught r i in
      let held = (Reach-Kept ulong show r i.inv.safe).0.latch_kept h in
      Step-stop st before held (Reach-stop r i h n)

  not_ended : {p : Pc} → Handling p → p ≢ ended
  not_ended h e = subst Handling e h

  not_returned :
      (p : Pc) (f : Task → Pc) → Joined p f → f control_task ≢ ended → is_returned p ≡ false
  not_returned (has_returned code) f j n = absurd (n (j control_task refl))
  not_returned _ f j n = refl

  -- The system as the boot leaves it, with a logger that flushes every line.
  module _ (lockout : RejectReason) (opens_state : Bool) (disk : Disk) (frame : SensorFrame)
      (l : Logger) (core : UgvCore) (up : IsUp lockout opens_state disk core)
      (flushing : l.cfg.flush_always ≡ true) where
    pub up-Caught : CaughtInv (start frame l core)
    unfolding make
    up-Caught = record {
      inv = up-Inv ulong show lockout opens_state disk frame l core up;
      quiet = rw up.routed (register_default_command_handlers-Quiet lockout _ tt);
      flushes = flushing;
      sane = elim [
        | main_task ↦ tt
        | estop_task ↦ inr tt
        | control_task ↦ inr tt
        | sensor_task ↦ inr tt
        | io_task ↦ inr tt
        | persist_task ↦ inr tt
      ];
      caught = λ e. absurd (ground (arith, e, up.unlatched));
    }

    -- With a logger that flushes every line: once the emergency stop is latched, the control task
    -- stays for good in the handling of the EmergencyStop that latched it, `run` never returns, and
    -- whether the stop of the process is asked for never changes again.
    pub emergency_stop_hangs :
        {s u : System D}
        → Reach ulong show (start frame l core) s
        → latched s.mem.core.vehicle.estop ≡ true
        → Reach ulong show s u
        → Handling (u.pc control_task)
          × (is_returned (u.pc main_task) ≡ false)
          × (stop_requested u.mem.core.vehicle.stop ≡ stop_requested s.mem.core.vehicle.stop)
    emergency_stop_hangs {s} {u} r h later =
        let now = Reach-Caught r up-Caught in
        let late = Reach-Caught later now in
        let kept = (Reach-Kept ulong show later now.inv.safe).0 in
        let caught = late.caught (kept.latch_kept h) in
        (
          caught,
          not_returned (u.pc main_task) u.pc late.inv.joined (not_ended caught),
          elim (Bool-cases (stop_requested s.mem.core.vehicle.stop)) [
            | inl stop ↦ kept.stop_kept stop ∙ sym stop
            | inr go ↦ Reach-stop later now h go ∙ sym go
          ],
        )
