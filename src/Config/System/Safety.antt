-- ===== src/Config/System/Safety.antt =====
-- What holds of the system with its log lines, whatever the logger does.
use mathlib.Core.Path.{subst}
use arcraven_ugv_core.Common.{
  ℕ, ◌≡◌, ◌≢◌, ◌⊎◌, inl, inr, refl, ap, sym, ◌∙◌, Bool, true, Bytes, arith,
}
use arcraven_ugv_core.Models.RejectReason.{RejectReason}
use arcraven_ugv_core.Command.Router.{make}
use arcraven_ugv_core.Core.EStopLatch.{latched}
use arcraven_ugv_core.Core.StopController.{stop_requested}
use arcraven_ugv_core.Core.StateStore.{Disk}
use arcraven_ugv_core.Subsystems.Interfaces.{SensorFrame}
use arcraven_ugv_core.Utils.Logger.{Logger}
use arcraven_ugv_core.Config.Handlers.Safe.{
  Safely, HasSafe, execute-Safely, register_default_command_handlers-Safe,
}
use arcraven_ugv_core.Config.Ticks.{control_start, sensor_round}
use arcraven_ugv_core.Config.Boot.{UgvCore}
use arcraven_ugv_core.Config.Boot.Outcome.{IsUp}
use arcraven_ugv_core.Config.Runtime.Safety.{end_shutdown-vehicle}
use arcraven_ugv_core.Config.System.{
  Task, main_task, estop_task, control_task, sensor_task, io_task, persist_task, Pc, says, stuck,
  storing, stopping, saving, Shared, remember, publish, client_write,
}
use arcraven_ugv_core.Config.System.Moves.{
  Move, ignores, logs, locks, enters, leaves, prepares, skips, begins, fills, finds_none, serves,
  latches, stores, stops, remembers, publishes, senses, finishes, System, Step, moves, joins,
  writes, Reach, here, next, start, at,
}
use arcraven_ugv_core.Config.System.Kept.{
  Kept, take_front-Safe, client_write-Kept, Move-Kept, Reach-Kept,
}
use arcraven_ugv_core.Config.System.Joins.{Joined, main_moved, moved-Joined}
use arcraven_ugv_core.Config.System.Places.{Holds, Holds-Kept, Move-Holds, stopped-stop}

-- In the handling of the EmergencyStop that won the exchange, before its request for the stop.
abbrev pub Handling : Pc → Type 0
Handling (says lvl msg k) = Handling k
Handling (stuck k) = Handling k
Handling (storing n c) = Unit
Handling (stopping n c) = Unit
Handling _ = ⊥

-- What holds of each task, after a step of one of them.
pub after_step :
    (P : Task → Pc → Type 0) (f : Task → Pc) (t : Task) (p : Pc)
    → P t p
    → ((u : Task) → P u (f u))
    → (u : Task) → P u (at f t p u)
after_step P f main_task p h k main_task = h
after_step P f estop_task p h k estop_task = h
after_step P f control_task p h k control_task = h
after_step P f sensor_task p h k sensor_task = h
after_step P f io_task p h k io_task = h
after_step P f persist_task p h k persist_task = h
after_step P f t p h k u = k u

only : {A : Type 0} → A ⊎ ⊥ → A
only (inl a) = a
only (inr x) = absurd x

module _ {D : Type 0} (ulong : ℕ) (show : D → Bytes) where
  control-Handling :
      {m m' : Shared D} {p p' : Pc}
      → Move ulong show m control_task p m' p'
      → HasSafe m.core.cmd_router
      → (latched m.core.vehicle.estop ≡ true
          → (stop_requested m.core.vehicle.stop ≡ true) ⊎ Handling p)
      → latched m'.core.vehicle.estop ≡ true
      → (stop_requested m'.core.vehicle.stop ≡ true) ⊎ Handling p'
  unfolding control_start remember publish
  control-Handling (ignores e) q k h = k h
  control-Handling (logs stamp tid source l f e) q k h = k h
  control-Handling (locks stamp tid source f e) q k h = k h
  control-Handling (enters e) q k h = inl (only (k h))
  control-Handling (leaves e) q k h = inl (only (k h))
  control-Handling prepares q k h = inl (only (k h))
  control-Handling (skips e) q k h = inl (only (k h))
  control-Handling (begins e) q k h = inl (only (k h))
  control-Handling fills q k h = inl (only (k h))
  control-Handling (finds_none e) q k h = inl (only (k h))
  control-Handling {m = m} (serves now_ns c hd r res v e w x) q k h =
      let (hs, _) = take_front-Safe m.core.cmd_router r c hd e q in
      let sf =
        subst (λ out. Safely m.core.vehicle out.1) x
          (execute-Safely now_ns c hd m.core.vehicle hs) in
      inl (sf.latch_stops (λ l. only (k l)) h)
  control-Handling (latches now_ns c hd r e w) q k h = inr tt
  control-Handling stores q k h = inr tt
  control-Handling {m = m} stops q k h = inl (stopped-stop m.core.vehicle)
  control-Handling remembers q k h = inl (only (k h))
  control-Handling publishes q k h = inl (only (k h))

  -- Another task latches nothing.
  pub others-latched :
      {m m' : Shared D} {t : Task} {p p' : Pc}
      → Move ulong show m t p m' p'
      → t ≢ control_task
      → m'.core.vehicle.estop ≡ m.core.vehicle.estop
  unfolding sensor_round
  others-latched prepares n = absurd (n refl)
  others-latched (serves now_ns c h r res v e w x) n = absurd (n refl)
  others-latched (latches now_ns c h r e w) n = absurd (n refl)
  others-latched stores n = absurd (n refl)
  others-latched stops n = absurd (n refl)
  others-latched remembers n = absurd (n refl)
  others-latched publishes n = absurd (n refl)
  others-latched (senses now_ns frame joints v e) n = sym (ap (λ out. out.2.estop) e)
  others-latched {m = m} (finishes env result core e) n =
      ap (λ c. c.vehicle.estop) (sym (ap (λ out. out.1) e))
      ∙ ap (λ v. v.estop) (end_shutdown-vehicle env m.core).0
  others-latched _ n = refl

  pub record Inv (s : System D) : Type 0 where
    pub safe : HasSafe s.mem.core.cmd_router
    pub holds : (t : Task) → Holds (s.pc t) s.mem.core.vehicle
    pub joined : Joined (s.pc main_task) s.pc
    pub latch_stops :
        latched s.mem.core.vehicle.estop ≡ true
        → (stop_requested s.mem.core.vehicle.stop ≡ true) ⊎ Handling (s.pc control_task)

  other-latch_stops :
      {H : Type 0} {t : Task} {p p' : Pc} {m m' : Shared D}
      → Move ulong show m t p m' p'
      → t ≢ control_task
      → HasSafe m.core.cmd_router
      → (latched m.core.vehicle.estop ≡ true → (stop_requested m.core.vehicle.stop ≡ true) ⊎ H)
      → latched m'.core.vehicle.estop ≡ true
      → (stop_requested m'.core.vehicle.stop ≡ true) ⊎ H
  other-latch_stops {m = m} mv n q k h = elim (k (ap latched (sym (others-latched mv n)) ∙ h)) [
    | inl stop ↦ inl ((Move-Kept ulong show mv q).0.stop_kept stop)
    | inr x ↦ inr x
  ]

  moved-latch_stops :
      (f : Task → Pc) (t : Task) (p : Pc) {m m' : Shared D}
      → Move ulong show m t (f t) m' p
      → HasSafe m.core.cmd_router
      → (latched m.core.vehicle.estop ≡ true
          → (stop_requested m.core.vehicle.stop ≡ true) ⊎ Handling (f control_task))
      → latched m'.core.vehicle.estop ≡ true
      → (stop_requested m'.core.vehicle.stop ≡ true) ⊎ Handling (at f t p control_task)
  moved-latch_stops f control_task p mv q k h = control-Handling mv q k h
  moved-latch_stops f main_task p mv q k h = other-latch_stops mv (λ e. cc) q k h
  moved-latch_stops f estop_task p mv q k h = other-latch_stops mv (λ e. cc) q k h
  moved-latch_stops f sensor_task p mv q k h = other-latch_stops mv (λ e. cc) q k h
  moved-latch_stops f io_task p mv q k h = other-latch_stops mv (λ e. cc) q k h
  moved-latch_stops f persist_task p mv q k h = other-latch_stops mv (λ e. cc) q k h

  moves-Inv :
      {s : System D} {t : Task} {m : Shared D} {p : Pc}
      → Move ulong show s.mem t (s.pc t) m p
      → Inv s
      → Inv (record { mem = m; pc = at s.pc t p })
  moves-Inv {s} {t} {m} {p} mv i =
      let (kept, q) = Move-Kept ulong show mv i.safe in
      record {
        safe = q;
        holds =
            after_step (λ u x. Holds x m.core.vehicle) s.pc t p
              (Move-Holds ulong show mv i.safe (i.holds t))
              (λ u. Holds-Kept (s.pc u) kept (i.holds u));
        joined = moved-Joined ulong show s.pc t p mv i.joined;
        latch_stops = moved-latch_stops s.pc t p mv i.safe i.latch_stops;
      }

  Step-Inv : {s u : System D} → Step ulong show s u → Inv s → Inv u
  unfolding client_write
  Step-Inv (moves alive mv) i = moves-Inv mv i
  Step-Inv {s} (joins e all) i = record {
    safe = i.safe;
    holds =
        after_step (λ u x. Holds x s.mem.core.vehicle) s.pc main_task saving
          (subst (λ x. Holds x s.mem.core.vehicle) e (i.holds main_task)) i.holds;
    joined = main_moved ulong show s.pc saving all;
    latch_stops = i.latch_stops;
  }
  Step-Inv {s} (writes text) i = record {
    safe = i.safe;
    holds = (λ u. Holds-Kept (s.pc u) (client_write-Kept text s.mem.core.vehicle) (i.holds u));
    joined = i.joined;
    latch_stops = i.latch_stops;
  }

  pub Reach-Inv : {s u : System D} → Reach ulong show s u → Inv s → Inv u
  Reach-Inv here i = i
  Reach-Inv (next r st) i = Step-Inv st (Reach-Inv r i)

  -- The system as the boot leaves it, with any logger.
  module _ (lockout : RejectReason) (opens_state : Bool) (disk : Disk) (frame : SensorFrame)
      (l : Logger) (core : UgvCore) (up : IsUp lockout opens_state disk core) where
    pub up-Inv : Inv (start frame l core)
    unfolding make
    up-Inv = record {
      safe = rw up.routed (register_default_command_handlers-Safe lockout _ tt);
      holds = elim [
        | main_task ↦ tt
        | estop_task ↦ tt
        | control_task ↦ tt
        | sensor_task ↦ tt
        | io_task ↦ tt
        | persist_task ↦ tt
      ];
      joined = tt;
      latch_stops = λ e. absurd (ground (arith, e, up.unlatched));
    }

    -- Whatever the logger does: whenever the emergency stop is latched, the stop of the process is
    -- asked for, or the control task is still between the exchange that latched it and that request.
    pub latched-stop_or_Handling :
        {s : System D}
        → Reach ulong show (start frame l core) s
        → latched s.mem.core.vehicle.estop ≡ true
        → (stop_requested s.mem.core.vehicle.stop ≡ true) ⊎ Handling (s.pc control_task)
    latched-stop_or_Handling r e = (Reach-Inv r up-Inv).latch_stops e

    -- Whatever the logger does, from any state of the system on: a stop asked for stays asked for, a
    -- latched emergency stop stays latched, and drives that are off stay off.
    pub Reach-never_undone :
        {s u : System D}
        → Reach ulong show (start frame l core) s
        → Reach ulong show s u
        → Kept s.mem.core.vehicle u.mem.core.vehicle
    Reach-never_undone r later = (Reach-Kept ulong show later (Reach-Inv r up-Inv).safe).0

    -- Whatever the logger does: each task finds at its place what that place counts on, and `run`
    -- saves the state at its end, and returns, only when every thread has ended.
    pub Reach-Holds :
        {s : System D}
        → Reach ulong show (start frame l core) s
        → ((t : Task) → Holds (s.pc t) s.mem.core.vehicle) × Joined (s.pc main_task) s.pc
    Reach-Holds r = let i = Reach-Inv r up-Inv in (i.holds, i.joined)
