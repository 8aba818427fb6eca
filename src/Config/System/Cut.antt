-- ===== src/Config/System/Cut.antt =====
-- The emergency-stop thread against a latched stop.
use arcraven_ugv_core.Common.{
  ℕ, suc, ◌+◌, ◌≤◌, ◌≡◌, ◌⊎◌, inl, inr, Bool, true, false, Bytes, arith, if◌then◌else◌,
}
use arcraven_ugv_core.Models.RejectReason.{RejectReason}
use arcraven_ugv_core.Core.EStopLatch.{latched}
use arcraven_ugv_core.Core.StopController.{stop_requested}
use arcraven_ugv_core.Core.StateStore.{Disk}
use arcraven_ugv_core.Subsystems.Interfaces.{SensorFrame}
use arcraven_ugv_core.Subsystems.Stubs.{enabled}
use arcraven_ugv_core.Utils.Logger.{Logger}
use arcraven_ugv_core.Config.Handlers.Safe.{HasSafe}
use arcraven_ugv_core.Config.Vehicle.{Vehicle}
use arcraven_ugv_core.Config.Boot.{UgvCore}
use arcraven_ugv_core.Config.Boot.Outcome.{IsUp}
use arcraven_ugv_core.Config.System.{
  Task, main_task, estop_task, control_task, sensor_task, io_task, persist_task, Pc, test, body,
  Shared,
}
use arcraven_ugv_core.Config.System.Moves.{
  Move, enters, leaves, idles, cuts, System, moves, joins, writes, Reach, here, next, start, at,
}
use arcraven_ugv_core.Config.System.Kept.{Kept, Move-Kept, client_write-Kept, Reach-Kept}
use arcraven_ugv_core.Config.System.Places.{with_estop-off}
use arcraven_ugv_core.Config.System.Safety.{Reach-Inv, up-Inv}
use arcraven_ugv_core.Config.System.Hangs.{emergency_stop_hangs}

-- In its loop, and how many turns it is away from the drives, at a latched stop.
abbrev owed : Pc → ℕ
owed test = 2
owed body = 1
owed _ = 0

abbrev pub IsLooping : Pc → Type 0
IsLooping test = Unit
IsLooping body = Unit
IsLooping _ = ⊥

owed-Looping : (p : Pc) → IsLooping p → 1 ≤ owed p
owed-Looping test h = omega arith
owed-Looping body h = omega arith
owed-Looping _ h = absurd h

owed-le : (p : Pc) → owed p ≤ 2
owed-le p = ground arith

abbrev is_estop : Task → Bool
is_estop estop_task = true
is_estop _ = false

module _ {D : Type 0} (ulong : ℕ) (show : D → Bytes) where
  -- The steps of `estop_thread` in a run.
  unfoldable pub turns : {s u : System D} → Reach ulong show s u → ℕ
  turns here = 0
  turns (next r (moves {t = t} alive mv)) = let n = turns r in if is_estop t then suc n else n
  turns (next r (joins e all)) = turns r
  turns (next r (writes text)) = turns r

  -- The drives are off, or the stop is asked for, or the thread is that much closer.
  Closer : ℕ → Pc → Vehicle → ℕ → Type 0
  Closer n p v bound =
      (enabled v.drives ≡ false)
      ⊎ ((stop_requested v.stop ≡ true) ⊎ (IsLooping p × (n + owed p ≤ bound)))

  turn-Closer :
      {m m' : Shared D} {p p' : Pc} (n bound : ℕ)
      → Move ulong show m estop_task p m' p'
      → latched m.core.vehicle.estop ≡ true
      → IsLooping p
      → n + owed p ≤ bound
      → Closer (suc n) p' m'.core.vehicle bound
  unfolding Closer
  turn-Closer n bound (enters e) h x b = inr (inr (tt, omega (arith, b)))
  turn-Closer n bound (leaves e) h x b = inr (inl e)
  turn-Closer n bound (idles e) h x b = absurd (ground (arith, e, h))
  turn-Closer {m = m} n bound (cuts e) h x b = inl (with_estop-off m.core.vehicle)
  turn-Closer n bound _ h x b = absurd x

  Closer-Kept :
      {v w : Vehicle} (n : ℕ) (p : Pc) (bound : ℕ)
      → Kept v w
      → Closer n p v bound
      → Closer n p w bound
  unfolding Closer
  Closer-Kept n p bound k (inl off) = inl (k.drives_off off)
  Closer-Kept n p bound k (inr (inl stop)) = inr (inl (k.stop_kept stop))
  Closer-Kept n p bound k (inr (inr x)) = inr (inr x)

  taken-Closer :
      {m m' : Shared D} {p p' : Pc} (n bound : ℕ)
      → Move ulong show m estop_task p m' p'
      → Kept m.core.vehicle m'.core.vehicle
      → latched m.core.vehicle.estop ≡ true
      → Closer n p m.core.vehicle bound
      → Closer (suc n) p' m'.core.vehicle bound
  unfolding Closer
  taken-Closer n bound mv k h (inl off) = inl (k.drives_off off)
  taken-Closer n bound mv k h (inr (inl stop)) = inr (inl (k.stop_kept stop))
  taken-Closer n bound mv k h (inr (inr (x, b))) = turn-Closer n bound mv h x b

  moved-Closer :
      {m m' : Shared D} (f : Task → Pc) (t : Task) (p : Pc) (n bound : ℕ)
      → Move ulong show m t (f t) m' p
      → Kept m.core.vehicle m'.core.vehicle
      → latched m.core.vehicle.estop ≡ true
      → Closer n (f estop_task) m.core.vehicle bound
      → Closer (if is_estop t then suc n else n) (at f t p estop_task) m'.core.vehicle bound
  moved-Closer f estop_task p n bound mv k h x = taken-Closer n bound mv k h x
  moved-Closer f main_task p n bound mv k h x = Closer-Kept n (f estop_task) bound k x
  moved-Closer f control_task p n bound mv k h x = Closer-Kept n (f estop_task) bound k x
  moved-Closer f sensor_task p n bound mv k h x = Closer-Kept n (f estop_task) bound k x
  moved-Closer f io_task p n bound mv k h x = Closer-Kept n (f estop_task) bound k x
  moved-Closer f persist_task p n bound mv k h x = Closer-Kept n (f estop_task) bound k x

  Reach-Closer :
      {s u : System D} (r : Reach ulong show s u)
      → HasSafe s.mem.core.cmd_router
      → latched s.mem.core.vehicle.estop ≡ true
      → IsLooping (s.pc estop_task)
      → Closer (turns r) (u.pc estop_task) u.mem.core.vehicle (owed (s.pc estop_task))
  unfolding turns
  Reach-Closer here q h x = unfold Closer in inr (inr (x, omega arith))
  Reach-Closer {s = s} (next {t = y} r (moves {t = t} {p = p} alive mv)) q h x =
      let (before, q') = Reach-Kept ulong show r q in
      moved-Closer y.pc t p (turns r) (owed (s.pc estop_task)) mv (Move-Kept ulong show mv q').0
        (before.latch_kept h) (Reach-Closer r q h x)
  Reach-Closer (next r (joins e all)) q h x = Reach-Closer r q h x
  Reach-Closer {s = s} (next {t = y} r (writes text)) q h x =
      Closer-Kept (turns r) (y.pc estop_task) (owed (s.pc estop_task))
        (client_write-Kept text y.mem.core.vehicle) (Reach-Closer r q h x)

  Closer-cut :
      (n : ℕ) (p q : Pc) (v : Vehicle)
      → 2 ≤ n
      → Closer n p v (owed q)
      → (enabled v.drives ≡ false) ⊎ (stop_requested v.stop ≡ true)
  unfolding Closer
  Closer-cut n p q v h (inl off) = inl off
  Closer-cut n p q v h (inr (inl stop)) = inr stop
  Closer-cut n p q v h (inr (inr (x, b))) =
      absurd (omega (arith, owed-Looping p x, owed-le q, h, b))

  -- The system as the boot leaves it.
  module _ (lockout : RejectReason) (opens_state : Bool) (disk : Disk) (frame : SensorFrame)
      (l : Logger) (core : UgvCore) (up : IsUp lockout opens_state disk core) where
    -- With any logger: where the stop is latched and the emergency-stop thread is in its loop, two
    -- steps of that thread later the drives are off or the stop of the process is asked for.
    pub estop_thread-cuts :
        {s u : System D}
        → Reach ulong show (start frame l core) s
        → latched s.mem.core.vehicle.estop ≡ true
        → IsLooping (s.pc estop_task)
        → (r : Reach ulong show s u) → 2 ≤ turns r
        → (enabled u.mem.core.vehicle.drives ≡ false)
          ⊎ (stop_requested u.mem.core.vehicle.stop ≡ true)
    estop_thread-cuts {s} {u} before h x r n =
        let i =
          Reach-Inv ulong show before
            (up-Inv ulong show lockout opens_state disk frame l core up) in
        Closer-cut (turns r) (u.pc estop_task) (s.pc estop_task) u.mem.core.vehicle n
          (Reach-Closer r i.safe h x)

    -- With a logger that flushes every line: where the stop is latched, nobody has asked for the stop
    -- of the process, and the emergency-stop thread is in its loop, the drives are off two steps of
    -- that thread later, although the command that latched never comes back.
    pub emergency_stop-cuts :
        {s u : System D}
        → l.cfg.flush_always ≡ true
        → Reach ulong show (start frame l core) s
        → latched s.mem.core.vehicle.estop ≡ true
        → stop_requested s.mem.core.vehicle.stop ≡ false
        → IsLooping (s.pc estop_task)
        → (r : Reach ulong show s u) → 2 ≤ turns r
        → enabled u.mem.core.vehicle.drives ≡ false
    emergency_stop-cuts {u = u} flushing before h go x r n =
        let (_, _, same) =
          emergency_stop_hangs ulong show lockout opens_state disk frame l core up flushing before h
            r in
        elim (estop_thread-cuts before h x r n) [
          | inl off ↦ off
          | inr stop ↦ absurd (ground (arith, stop, same, go))
        ]
