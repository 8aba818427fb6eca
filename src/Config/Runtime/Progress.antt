-- ===== src/Config/Runtime/Progress.antt =====
-- Where each thread can stand, and that some thread or `run` can always take a step.
use mathlib.Core.Path.{subst}
use arcraven_ugv_core.Common.{
  ℕ, zero, suc, ◌≤◌, ◌≡◌, ◌≢◌, ◌⊎◌, inl, inr, refl, true, Option, none, some, Bytes, arith,
  Bool-cases,
}
use arcraven_ugv_core.Command.Types.{CommandEnvelope, CommandResult}
use arcraven_ugv_core.Command.Router.{CommandRouter, process_one}
use arcraven_ugv_core.Core.EStopLatch.{latched}
use arcraven_ugv_core.Core.StopController.{stop_requested}
use arcraven_ugv_core.Core.StateStore.{SaveFaults}
use arcraven_ugv_core.Subsystems.Interfaces.{SensorFrame}
use arcraven_ugv_core.Config.Vehicle.{Vehicle}
use arcraven_ugv_core.Config.Boot.{
  ThreadName, estop_thread, control_thread, sensor_thread, io_thread, persist_thread, UgvCore,
}
use arcraven_ugv_core.Config.Runtime.{
  Phase, starting, test, body, batch, ended, MainPhase, waiting, joining, has_returned, died,
  Runtime, is_running, at, Tick, enters, leaves, checks_estop, starts_control, skips_batch,
  begins_batch, serves, finds_none, ends_batch, senses, pumps, persists, Step, ticks, stops,
  finishes, Reach, here, next, start, first_phase,
}

-- The control thread alone has a start and batches, of eight commands at most.
abbrev pub Fits : ThreadName → Phase → Type 0
Fits control_thread starting = Unit
Fits control_thread (batch n) = n ≤ 8
Fits t starting = ⊥
Fits t (batch n) = ⊥
Fits t p = Unit

Fits-body : (t : ThreadName) → Fits t body × Fits t test × Fits t ended
Fits-body control_thread = (tt, tt, tt)
Fits-body _ = (tt, tt, tt)

Fits-at :
    (f : ThreadName → Phase) (t : ThreadName) (p : Phase)
    → Fits t p
    → ((u : ThreadName) → Fits u (f u))
    → (u : ThreadName) → Fits u (at f t p u)
Fits-at f estop_thread p h k estop_thread = h
Fits-at f control_thread p h k control_thread = h
Fits-at f sensor_thread p h k sensor_thread = h
Fits-at f io_thread p h k io_thread = h
Fits-at f persist_thread p h k persist_thread = h
Fits-at f t p h k u = k u

one_less :
    (n : ℕ) (p : Phase) → p ≡ batch (suc n) → Fits control_thread p → Fits control_thread (batch n)
one_less n p e h = let h' = subst (Fits control_thread) e h in omega (arith, h')

first_phase-Fits : (t : ThreadName) → Fits t (first_phase t)
first_phase-Fits control_thread = tt
first_phase-Fits _ = tt

module _ {D : Type 0} (ulong : ℕ) (show : D → Bytes) where
  abbrev pub AllFit : Runtime D → Type 0
  AllFit s = (t : ThreadName) → Fits t (s.phase t)

  Tick-AllFit : {s u : Runtime D} → Tick ulong show s u → AllFit s → AllFit u
  Tick-AllFit {s} (enters t p e) k = Fits-at s.phase t body (Fits-body t).0 k
  Tick-AllFit {s} (leaves t p e) k = Fits-at s.phase t ended (Fits-body t).2 k
  Tick-AllFit {s} (checks_estop p) k = Fits-at s.phase estop_thread test tt k
  Tick-AllFit {s} (starts_control p) k = Fits-at s.phase control_thread test tt k
  Tick-AllFit {s} (skips_batch p e) k = Fits-at s.phase control_thread test tt k
  Tick-AllFit {s} (begins_batch p e) k = Fits-at s.phase control_thread (batch 8) (omega arith) k
  Tick-AllFit {s} (serves now_ns n c r v p e) k =
      Fits-at s.phase control_thread (batch n) (one_less n _ p (k control_thread)) k
  Tick-AllFit {s} (finds_none now_ns n r v p e) k = Fits-at s.phase control_thread test tt k
  Tick-AllFit {s} (ends_batch p) k = Fits-at s.phase control_thread test tt k
  Tick-AllFit {s} (senses now_ns frame joints v p e) k = Fits-at s.phase sensor_thread test tt k
  Tick-AllFit {s} (pumps r v p e) k = Fits-at s.phase io_thread test tt k
  Tick-AllFit {s} (persists env result disk p e) k = Fits-at s.phase persist_thread test tt k

  Step-AllFit : {s u : Runtime D} → Step ulong show s u → AllFit s → AllFit u
  Step-AllFit (ticks run t) k = Tick-AllFit t k
  Step-AllFit (stops m e) k = k
  Step-AllFit (finishes env result core m all e) k = k

  pub Reach-AllFit : {s u : Runtime D} → Reach ulong show s u → AllFit s → AllFit u
  Reach-AllFit here k = k
  Reach-AllFit (next r st) k = Step-AllFit st (Reach-AllFit r k)

  pub start-AllFit : (frame : SensorFrame) (core : UgvCore) → AllFit (start frame core)
  start-AllFit frame core = first_phase-Fits

  -- A thread that has not ended can take a step.
  Moves : Runtime D → Type 0
  Moves s = (u : Runtime D) × Tick ulong show s u

  batch-Moves : (s : Runtime D) (n : ℕ) → s.phase control_thread ≡ batch n → Moves s
  unfolding Moves
  batch-Moves s zero p = (_, ends_batch p)
  batch-Moves s (suc n) p = by_answer (process_one 0 s.core.cmd_router s.core.vehicle) refl
    where
      by_answer :
          (out : Option (CommandEnvelope × CommandResult) × CommandRouter Vehicle × Vehicle)
          → process_one 0 s.core.cmd_router s.core.vehicle ≡ out
          → Moves s
      by_answer (none, r, v) e = (_, finds_none 0 n r v p e)
      by_answer (some c, r, v) e = (_, serves 0 n c r v p e)

  test-Moves : (s : Runtime D) (t : ThreadName) → s.phase t ≡ test → Moves s
  unfolding Moves
  test-Moves s t p = elim (Bool-cases (stop_requested s.core.vehicle.stop)) [
    | inl stop ↦ (_, leaves t p stop)
    | inr go ↦ (_, enters t p go)
  ]

  control-Moves : (s : Runtime D) (p : Phase) → s.phase control_thread ≡ p → (p ≡ ended) ⊎ Moves s
  unfolding Moves
  control-Moves s starting e = inr (_, starts_control e)
  control-Moves s test e = inr (test-Moves s control_thread e)
  control-Moves s body e = inr (elim (Bool-cases (latched s.core.vehicle.estop)) [
    | inl held ↦ (_, skips_batch e held)
    | inr free ↦ (_, begins_batch e free)
  ])
  control-Moves s (batch n) e = inr (batch-Moves s n e)
  control-Moves s ended e = inl refl

  -- A thread other than the control thread, given how it leaves its loop's body.
  other-Moves :
      (s : Runtime D) (t : ThreadName) (p : Phase)
      → t ≢ control_thread
      → Fits t p
      → s.phase t ≡ p
      → (s.phase t ≡ body → Moves s)
      → (p ≡ ended) ⊎ Moves s
  other-Moves s t test n h e m = inr (test-Moves s t e)
  other-Moves s t body n h e m = inr (m e)
  other-Moves s t ended n h e m = inl refl
  other-Moves s control_thread p n h e m = absurd (n refl)
  other-Moves s estop_thread starting n h e m = absurd h
  other-Moves s sensor_thread starting n h e m = absurd h
  other-Moves s io_thread starting n h e m = absurd h
  other-Moves s persist_thread starting n h e m = absurd h
  other-Moves s estop_thread (batch k) n h e m = absurd h
  other-Moves s sensor_thread (batch k) n h e m = absurd h
  other-Moves s io_thread (batch k) n h e m = absurd h
  other-Moves s persist_thread (batch k) n h e m = absurd h

  faults : SaveFaults
  faults = record {
    creates = true;
    opens = true;
    written = 28;
    renames = true;
    removes = true;
    renames_again = true;
  }

  thread-Moves : (s : Runtime D) → AllFit s → (t : ThreadName) → (s.phase t ≡ ended) ⊎ Moves s
  unfolding Moves
  thread-Moves s k estop_thread =
      other-Moves s estop_thread _ (λ q. cc) (k estop_thread) refl (λ e. (_, checks_estop e))
  thread-Moves s k control_thread = control-Moves s _ refl
  thread-Moves s k sensor_thread =
      other-Moves s sensor_thread _ (λ q. cc) (k sensor_thread) refl
        (λ e. (_, senses 0 _ _ _ e refl))
  thread-Moves s k io_thread =
      other-Moves s io_thread _ (λ q. cc) (k io_thread) refl (λ e. (_, pumps _ _ e refl))
  thread-Moves s k persist_thread =
      other-Moves s persist_thread _ (λ q. cc) (k persist_thread) refl
        (λ e. (_, persists faults _ _ e refl))

  all_ended_or_Moves : (s : Runtime D) → AllFit s → ((t : ThreadName) → s.phase t ≡ ended) ⊎ Moves s
  all_ended_or_Moves s k = elim (thread-Moves s k estop_thread) [
    | inr m ↦ inr m
    | inl e1 ↦ elim (thread-Moves s k control_thread) [
      | inr m ↦ inr m
      | inl e2 ↦ elim (thread-Moves s k sensor_thread) [
        | inr m ↦ inr m
        | inl e3 ↦ elim (thread-Moves s k io_thread) [
          | inr m ↦ inr m
          | inl e4 ↦ elim (thread-Moves s k persist_thread) [
            | inr m ↦ inr m
            | inl e5 ↦ inl (elim [
              | estop_thread ↦ e1
              | control_thread ↦ e2
              | sensor_thread ↦ e3
              | io_thread ↦ e4
              | persist_thread ↦ e5
            ])
          ]
        ]
      ]
    ]
  ]

  -- While `run` has not returned, and the stop is asked for, something can take a step.
  pub progress :
      (s : Runtime D)
      → AllFit s
      → is_running s.main ≡ true
      → stop_requested s.core.vehicle.stop ≡ true
      → (u : Runtime D) × Step ulong show s u
  unfolding Moves
  progress s k run stop = by_main s.main refl
    where
      by_main : (m : MainPhase) → s.main ≡ m → (u : Runtime D) × Step ulong show s u
      by_main waiting e = (_, stops e stop)
      by_main joining e = elim (all_ended_or_Moves s k) [
        | inl all ↦ (_, finishes faults _ _ e all refl)
        | inr (u, t) ↦ (u, ticks run t)
      ]
      by_main (has_returned code) e = absurd (ground (arith, run, e))
      by_main died e = absurd (ground (arith, run, e))
