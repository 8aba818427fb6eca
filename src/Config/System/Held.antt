-- ===== src/Config/System/Held.antt =====
-- When a call of the logger can hold its mutex for good, once the runtime is up.
use arcraven_ugv_core.Common.{
  ℕ, ◌≡◌, inl, inr, refl, sym, ◌∙◌, Bool, true, false, List, Option, none, some, Bytes, arith,
  Bool-cases,
}
use arcraven_ugv_core.Models.RejectReason.{RejectReason}
use arcraven_ugv_core.Command.Types.{CommandEnvelope, CommandResult}
use arcraven_ugv_core.Core.EStopLatch.{latched}
use arcraven_ugv_core.Core.StateStore.{Disk, SaveResult, returned, thrown}
use arcraven_ugv_core.Subsystems.Interfaces.{SensorFrame}
use arcraven_ugv_core.Utils.Logger.{Level, info, warn, fatal, is_fatal, Logger, write_line}
use arcraven_ugv_core.Utils.Logger.Lines.{log-none_iff}
use arcraven_ugv_core.Config.Vehicle.{Vehicle}
use arcraven_ugv_core.Config.Handlers.Safe.{HasSafe}
use arcraven_ugv_core.Config.Boot.{UgvCore}
use arcraven_ugv_core.Config.Boot.Outcome.{IsUp}
use arcraven_ugv_core.Config.System.{
  Task, main_task, estop_task, control_task, sensor_task, io_task, persist_task, Pc, says, halting,
  saving, Shared, executed, is_stop_done, says_warning, submits_parsed, client_write,
}
use arcraven_ugv_core.Config.System.Moves.{
  Move, ignores, logs, locks, leaves, cuts, serves, stores, remembers, reads, persists, wakes,
  warns, halts, disables, finishes, after_persist, after_shutdown, System, Step, moves, joins,
  writes, Reach, here, next, start,
}
use arcraven_ugv_core.Config.System.Kept.{Kept, with_reason-Kept, Move-Kept, client_write-Kept}
use arcraven_ugv_core.Config.System.Places.{Holds}
use arcraven_ugv_core.Config.System.Safety.{after_step, Inv, Reach-Inv, up-Inv}
use arcraven_ugv_core.Config.System.Locked.{Move-flush_always}

-- A fatal line comes only with the stop latched.
abbrev pub Alarms : Pc → Vehicle → Type 0
Alarms (says lvl msg k) v = (is_fatal lvl ≡ true → latched v.estop ≡ true) × Alarms k v
Alarms halting v = latched v.estop ≡ true
Alarms _ v = Unit

Alarms-Kept : (p : Pc) {v w : Vehicle} → Kept v w → Alarms p v → Alarms p w
Alarms-Kept (says lvl msg k) s h = ((λ e. s.latch_kept (h.0 e)), Alarms-Kept k s h.1)
Alarms-Kept halting s h = s.latch_kept h
Alarms-Kept _ s h = tt

mild : {A : Type 0} (lvl : Level) → is_fatal lvl ≡ false → is_fatal lvl ≡ true → A
mild lvl e h = absurd (ground (arith, e, h))

executed-Alarms :
    (n : ℕ) (c : CommandEnvelope) (res : CommandResult) (v : Vehicle) → Alarms (executed n c res) v
executed-Alarms n c res v = elim (Bool-cases (is_stop_done c res)) [
  | inl e ↦ rw e (mild warn refl, tt)
  | inr e ↦ rw e tt
]

read-Alarms :
    (w : Option Bytes) (o : Option CommandEnvelope) (lines : List Bytes) (v : Vehicle)
    → Alarms (says_warning w (submits_parsed o lines)) v
read-Alarms none none lines v = tt
read-Alarms none (some env) lines v = tt
read-Alarms (some msg) none lines v = (mild warn refl, tt)
read-Alarms (some msg) (some env) lines v = (mild warn refl, tt)

after_persist-Alarms : (result : SaveResult) (v : Vehicle) → Alarms (after_persist result) v
after_persist-Alarms (returned ok) v = tt
after_persist-Alarms thrown v = tt

after_shutdown-Alarms : (result : SaveResult) (v : Vehicle) → Alarms (after_shutdown result) v
after_shutdown-Alarms (returned ok) v = (mild info refl, tt)
after_shutdown-Alarms thrown v = tt

is_fatal-true : (lvl : Level) → lvl ≡ fatal → is_fatal lvl ≡ true
is_fatal-true lvl e = ground (arith, e)

module _ {D : Type 0} (ulong : ℕ) (show : D → Bytes) where
  Move-Alarms :
      {m m' : Shared D} {t : Task} {p p' : Pc}
      → Move ulong show m t p m' p'
      → HasSafe m.core.cmd_router
      → Holds p m.core.vehicle
      → Alarms p m.core.vehicle
      → Alarms p' m'.core.vehicle
  Move-Alarms (ignores e) q h x = x.1
  Move-Alarms (logs stamp tid source l f e) q h x = x.1
  Move-Alarms (locks stamp tid source f e) q h x = tt
  Move-Alarms (leaves e) q h x = (mild info refl, tt)
  Move-Alarms (cuts e) q h x = ((λ f. e), tt)
  Move-Alarms {m' = m'} (serves {n} now_ns c hd r res v e w y) q h x =
      executed-Alarms n c res m'.core.vehicle
  Move-Alarms {m = m} stores q h x = ((λ f. (with_reason-Kept m.core.vehicle).latch_kept h), tt)
  Move-Alarms remembers q h x = (mild info refl, tt)
  Move-Alarms {m' = m'} reads q h x = read-Alarms _ _ _ m'.core.vehicle
  Move-Alarms {m' = m'} (persists env result disk e) q h x =
      after_persist-Alarms result m'.core.vehicle
  Move-Alarms (wakes e) q h x = (mild warn refl, tt)
  Move-Alarms (warns e) q h x = (mild warn refl, e)
  Move-Alarms halts q h x = ((λ f. x), tt)
  Move-Alarms (disables e) q h x = (mild warn refl, tt)
  Move-Alarms {m' = m'} (finishes env result core e) q h x =
      after_shutdown-Alarms result m'.core.vehicle
  Move-Alarms _ q h x = tt

  -- The mutex is held for good only if every line is flushed and the stop is latched.
  abbrev Explained : Shared D → Type 0
  Explained m =
      m.held ≡ true → (m.log_state.cfg.flush_always ≡ true) × (latched m.core.vehicle.estop ≡ true)

  Move-Explained :
      {m m' : Shared D} {t : Task} {p p' : Pc}
      → Move ulong show m t p m' p'
      → HasSafe m.core.cmd_router
      → Alarms p m.core.vehicle
      → Explained m
      → Explained m'
  unfolding write_line
  Move-Explained (logs stamp tid source l f e) q x k h = absurd (ground (arith, f, h))
  Move-Explained {m = m} (locks {lvl = lvl} {msg = msg} stamp tid source f e) q x k h =
      let (is, flushes) = (log-none_iff stamp tid msg lvl source m.log_state).0 e in
      (flushes, x.0 (is_fatal-true lvl is))
  Move-Explained mv q x k h =
      let (flushes, held) = k h in (flushes, (Move-Kept ulong show mv q).0.latch_kept held)

  record HeldInv (s : System D) : Type 0 where
    inv : Inv ulong show s
    alarms : (t : Task) → Alarms (s.pc t) s.mem.core.vehicle
    explained : Explained s.mem

  Step-Held : {s u : System D} → Step ulong show s u → HeldInv s → Inv ulong show u → HeldInv u
  unfolding client_write
  Step-Held {s} (moves {t} {m} {p} alive mv) i j =
      let kept = (Move-Kept ulong show mv i.inv.safe).0 in
      record {
        inv = j;
        alarms =
            after_step (λ u x. Alarms x m.core.vehicle) s.pc t p
              (Move-Alarms mv i.inv.safe (i.inv.holds t) (i.alarms t))
              (λ u. Alarms-Kept (s.pc u) kept (i.alarms u));
        explained = Move-Explained mv i.inv.safe (i.alarms t) i.explained;
      }
  Step-Held {s} (joins e all) i j = record {
    inv = j;
    alarms = after_step (λ u x. Alarms x s.mem.core.vehicle) s.pc main_task saving tt i.alarms;
    explained = i.explained;
  }
  Step-Held {s} (writes text) i j = record {
    inv = j;
    alarms = (λ u. Alarms-Kept (s.pc u) (client_write-Kept text s.mem.core.vehicle) (i.alarms u));
    explained = i.explained;
  }

  Reach-Held : {s u : System D} → Reach ulong show s u → HeldInv s → HeldInv u
  Reach-Held here i = i
  Reach-Held (next r st) i =
      let before = Reach-Held r i in
      Step-Held st before (Reach-Inv ulong show (next here st) before.inv)

  Reach-flush_always :
      {s u : System D}
      → Reach ulong show s u
      → u.mem.log_state.cfg.flush_always ≡ s.mem.log_state.cfg.flush_always
  Reach-flush_always here = refl
  Reach-flush_always (next r (moves alive mv)) =
      Move-flush_always ulong show mv ∙ Reach-flush_always r
  Reach-flush_always (next r (joins e all)) = Reach-flush_always r
  Reach-flush_always (next r (writes text)) = Reach-flush_always r

  -- Once the boot has brought the runtime up, and whatever the logger: a call of the logger by the
  -- threads or by `run` holds its mutex for good only with flushing on, and only once the emergency
  -- stop is latched. Of the boot's own fatal lines this says nothing.
  pub held-latched :
      (lockout : RejectReason) (opens_state : Bool) (disk : Disk) (frame : SensorFrame) (l : Logger)
      (core : UgvCore)
      → IsUp lockout opens_state disk core
      → {s : System D} → Reach ulong show (start frame l core) s
      → s.mem.held ≡ true
      → (l.cfg.flush_always ≡ true) × (latched s.mem.core.vehicle.estop ≡ true)
  held-latched lockout opens_state disk frame l core up r h =
      let (flushes, held) = (Reach-Held r first).explained h in
      (sym (Reach-flush_always r) ∙ flushes, held)
    where
      first : HeldInv (start frame l core)
      first = record {
        inv = up-Inv ulong show lockout opens_state disk frame l core up;
        alarms = elim [
          | main_task ↦ tt
          | estop_task ↦ (mild info refl, tt)
          | control_task ↦ (mild info refl, tt)
          | sensor_task ↦ (mild info refl, tt)
          | io_task ↦ (mild info refl, tt)
          | persist_task ↦ (mild info refl, tt)
        ];
        explained = λ e. absurd (ground (arith, e));
      }
