-- ===== src/Config/System/CanMove.antt =====
-- What each task can do next, while no call of the logger holds the mutex for good.
use arcraven_ugv_core.Common.{
  ℕ, zero, suc, ◌≡◌, ◌≢◌, ◌⊎◌, inl, inr, refl, true, false, [], ◌∷◌, Option, none, some, Bytes,
  arith, Bool-cases,
}
use arcraven_ugv_core.Command.Types.{CommandEnvelope}
use arcraven_ugv_core.Command.Router.{CommandHandler, CommandRouter, take_front}
use arcraven_ugv_core.Core.EStopLatch.{latched}
use arcraven_ugv_core.Core.StopController.{stop_requested}
use arcraven_ugv_core.Core.StateStore.{SaveFaults}
use arcraven_ugv_core.Utils.Logger.{Level, Logger, log}
use arcraven_ugv_core.Config.Vehicle.{Vehicle}
use arcraven_ugv_core.Config.System.{
  Task, main_task, estop_task, control_task, sensor_task, io_task, persist_task, Pc, says, test,
  body, ended, requesting, starting, batch, storing, stopping, answered, publishing, pumping,
  submitting, waiting, shutdown, choosing, halting, joining, saving, has_returned, died, Shared,
  is_winning,
}
use arcraven_ugv_core.Config.System.Moves.{
  Move, logs, locks, enters, leaves, idles, cuts, asks, prepares, skips, begins, fills, finds_none,
  serves, latches, stores, stops, remembers, publishes, senses, opens, reads, submits, pumped,
  persists, wakes, requests, warns, halts, disables, finishes, is_worker,
}
use arcraven_ugv_core.Config.System.Hangs.{is_returned}
use arcraven_ugv_core.Config.System.Owners.{Fits}

module _ {D : Type 0} (ulong : ℕ) (show : D → Bytes) where
  -- What a task at `p` can do.
  abbrev pub CanMove : Shared D → Task → Pc → Type 0
  CanMove m t p = (m' : Shared D) × (p' : Pc) × Move ulong show m t p m' p'

  -- A log line is written or its call hangs, while nobody holds the mutex for good.
  says-CanMove :
      (m : Shared D) (t : Task) (lvl : Level) (msg : Bytes) (k : Pc)
      → m.held ≡ false
      → CanMove m t (says lvl msg k)
  says-CanMove m t lvl msg k h = by_log (log [] [] lvl msg (none, 0) m.log_state) refl
    where
      by_log :
          (o : Option Logger)
          → log [] [] lvl msg (none, 0) m.log_state ≡ o
          → CanMove m t (says lvl msg k)
      by_log none e = (_, _, locks [] [] (none, 0) h e)
      by_log (some l) e = (_, _, logs [] [] (none, 0) l h e)

  test-CanMove : (m : Shared D) (t : Task) → CanMove m t test
  test-CanMove m t = elim (Bool-cases (stop_requested m.core.vehicle.stop)) [
    | inl stop ↦ (_, _, leaves stop)
    | inr go ↦ (_, _, enters go)
  ]

  batch-CanMove : (m : Shared D) (n : ℕ) → CanMove m control_task (batch n)
  batch-CanMove m zero = (_, _, fills)
  batch-CanMove m (suc n) = by_front (take_front m.core.cmd_router) refl
    where
      by_front :
          (o : Option (CommandEnvelope × CommandHandler Vehicle × CommandRouter Vehicle))
          → take_front m.core.cmd_router ≡ o
          → CanMove m control_task (batch (suc n))
      by_front none e = (_, _, finds_none e)
      by_front (some (c, h, r)) e = elim (Bool-cases (is_winning 0 c m.core.vehicle)) [
        | inl w ↦ (_, _, latches 0 c h r e w)
        | inr w ↦ (_, _, serves 0 c h r _ _ e w refl)
      ]

  faults : SaveFaults
  faults = record {
    creates = true;
    opens = true;
    written = 28;
    renames = true;
    removes = true;
    renames_again = true;
  }

  estop-CanMove :
      (m : Shared D) (p : Pc)
      → m.held ≡ false
      → p ≢ died
      → Fits estop_task p
      → (p ≡ ended) ⊎ CanMove m estop_task p
  estop-CanMove m (says lvl msg k) h n x = inr (says-CanMove m estop_task lvl msg k h)
  estop-CanMove m test h n x = inr (test-CanMove m estop_task)
  estop-CanMove m ended h n x = inl refl
  estop-CanMove m body h n x = inr (elim (Bool-cases (latched m.core.vehicle.estop)) [
    | inl e ↦ (_, _, cuts e)
    | inr e ↦ (_, _, idles e)
  ])
  estop-CanMove m requesting h n x = inr (_, _, asks)
  estop-CanMove m _ h n x = absurd x

  control-CanMove :
      (m : Shared D) (p : Pc)
      → m.held ≡ false
      → p ≢ died
      → Fits control_task p
      → (p ≡ ended) ⊎ CanMove m control_task p
  control-CanMove m (says lvl msg k) h n x = inr (says-CanMove m control_task lvl msg k h)
  control-CanMove m test h n x = inr (test-CanMove m control_task)
  control-CanMove m ended h n x = inl refl
  control-CanMove m body h n x = inr (elim (Bool-cases (latched m.core.vehicle.estop)) [
    | inl e ↦ (_, _, skips e)
    | inr e ↦ (_, _, begins e)
  ])
  control-CanMove m starting h n x = inr (_, _, prepares)
  control-CanMove m (batch k) h n x = inr (batch-CanMove m k)
  control-CanMove m (storing k c) h n x = inr (_, _, stores)
  control-CanMove m (stopping k c) h n x = inr (_, _, stops)
  control-CanMove m (answered k p) h n x = inr (_, _, remembers)
  control-CanMove m (publishing k p) h n x = inr (_, _, publishes)
  control-CanMove m _ h n x = absurd x

  sensor-CanMove :
      (m : Shared D) (p : Pc)
      → m.held ≡ false
      → p ≢ died
      → Fits sensor_task p
      → (p ≡ ended) ⊎ CanMove m sensor_task p
  sensor-CanMove m (says lvl msg k) h n x = inr (says-CanMove m sensor_task lvl msg k h)
  sensor-CanMove m test h n x = inr (test-CanMove m sensor_task)
  sensor-CanMove m ended h n x = inl refl
  sensor-CanMove m body h n x = inr (_, _, senses 0 _ _ _ refl)
  sensor-CanMove m _ h n x = absurd x

  io-CanMove :
      (m : Shared D) (p : Pc)
      → m.held ≡ false
      → p ≢ died
      → Fits io_task p
      → (p ≡ ended) ⊎ CanMove m io_task p
  io-CanMove m (says lvl msg k) h n x = inr (says-CanMove m io_task lvl msg k h)
  io-CanMove m test h n x = inr (test-CanMove m io_task)
  io-CanMove m ended h n x = inl refl
  io-CanMove m body h n x = inr (_, _, opens)
  io-CanMove m (pumping []) h n x = inr (_, _, pumped)
  io-CanMove m (pumping (line ∷ lines)) h n x = inr (_, _, reads)
  io-CanMove m (submitting env lines) h n x = inr (_, _, submits)
  io-CanMove m _ h n x = absurd x

  persist-CanMove :
      (m : Shared D) (p : Pc)
      → m.held ≡ false
      → p ≢ died
      → Fits persist_task p
      → (p ≡ ended) ⊎ CanMove m persist_task p
  persist-CanMove m (says lvl msg k) h n x = inr (says-CanMove m persist_task lvl msg k h)
  persist-CanMove m test h n x = inr (test-CanMove m persist_task)
  persist-CanMove m ended h n x = inl refl
  persist-CanMove m body h n x = inr (_, _, persists faults _ _ refl)
  persist-CanMove m died h n x = absurd (n refl)
  persist-CanMove m _ h n x = absurd x

  pub worker-CanMove :
      (m : Shared D) (t : Task) (p : Pc)
      → m.held ≡ false
      → is_worker t ≡ true
      → p ≢ died
      → Fits t p
      → (p ≡ ended) ⊎ CanMove m t p
  worker-CanMove m main_task p h w n x = absurd (ground (arith, w))
  worker-CanMove m estop_task p h w n x = estop-CanMove m p h n x
  worker-CanMove m control_task p h w n x = control-CanMove m p h n x
  worker-CanMove m sensor_task p h w n x = sensor-CanMove m p h n x
  worker-CanMove m io_task p h w n x = io-CanMove m p h n x
  worker-CanMove m persist_task p h w n x = persist-CanMove m p h n x

  pub main-CanMove :
      (m : Shared D) (p : Pc)
      → m.held ≡ false
      → p ≢ died
      → is_returned p ≡ false
      → p ≢ joining
      → Fits main_task p
      → stop_requested m.core.vehicle.stop ≡ true
      → CanMove m main_task p
  main-CanMove m (says lvl msg k) h n r j x stop = says-CanMove m main_task lvl msg k h
  main-CanMove m waiting h n r j x stop = (_, _, wakes stop)
  main-CanMove m shutdown h n r j x stop = (_, _, requests)
  main-CanMove m choosing h n r j x stop = elim (Bool-cases (latched m.core.vehicle.estop)) [
    | inl e ↦ (_, _, warns e)
    | inr e ↦ (_, _, disables e)
  ]
  main-CanMove m halting h n r j x stop = (_, _, halts)
  main-CanMove m joining h n r j x stop = absurd (j refl)
  main-CanMove m saving h n r j x stop = (_, _, finishes faults _ _ refl)
  main-CanMove m (has_returned code) h n r j x stop = absurd (ground (arith, r))
  main-CanMove m died h n r j x stop = absurd (n refl)
  main-CanMove m _ h n r j x stop = absurd x
