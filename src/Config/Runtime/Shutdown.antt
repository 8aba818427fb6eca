-- ===== src/Config/Runtime/Shutdown.antt =====
-- Once the stop is asked for, the system comes to its end in a bounded number of steps.
use arcraven_ugv_core.Common.{
  ℕ, zero, suc, ◌+◌, ◌≤◌, ◌<◌, ◌≡◌, ◌⊎◌, inl, inr, refl, ap, Bool, true, false, Bytes, arith,
  Bool-cases,
}
use arcraven_ugv_core.Models.RejectReason.{RejectReason}
use arcraven_ugv_core.Core.StopController.{stop_requested}
use arcraven_ugv_core.Core.StateStore.{Disk, SaveResult, returned, thrown}
use arcraven_ugv_core.Subsystems.Interfaces.{SensorFrame}
use arcraven_ugv_core.Config.Boot.{
  ThreadName, estop_thread, control_thread, sensor_thread, io_thread, persist_thread, UgvCore,
}
use arcraven_ugv_core.Config.Boot.Outcome.{IsUp}
use arcraven_ugv_core.Config.Runtime.{
  Phase, starting, test, body, batch, ended, MainPhase, waiting, joining, has_returned, died,
  Runtime, is_running, at, after_persist, after_shutdown, Tick, enters, leaves, checks_estop,
  starts_control, skips_batch, begins_batch, serves, finds_none, ends_batch, senses, pumps,
  persists, Step, ticks, stops, finishes, Reach, here, next, start,
}
use arcraven_ugv_core.Config.Runtime.Progress.{Fits, AllFit, Reach-AllFit, start-AllFit, progress}
use arcraven_ugv_core.Config.Runtime.Safety.{Inv, Reach-Inv, up-Inv, Reach-Safely}

-- How many steps a thread has left at most, when no new round begins.
weight : Phase → ℕ
weight ended = 0
weight test = 1
weight starting = 2
weight (batch n) = n + 2
weight body = 11

main_weight : MainPhase → ℕ
main_weight waiting = 2
main_weight joining = 1
main_weight (has_returned code) = 0
main_weight died = 0

thread_weight : (ThreadName → Phase) → ℕ
thread_weight f =
    weight (f estop_thread)
    + weight (f control_thread)
    + weight (f sensor_thread)
    + weight (f io_thread)
    + weight (f persist_thread)

-- A thread that moves on to a lighter phase lightens the whole.
moves :
    (f : ThreadName → Phase) (t : ThreadName) (old p : Phase)
    → f t ≡ old
    → weight p < weight old
    → thread_weight (at f t p) < thread_weight f
unfolding thread_weight
moves f estop_thread old p e h = omega (arith, ap weight e)
moves f control_thread old p e h = omega (arith, ap weight e)
moves f sensor_thread old p e h = omega (arith, ap weight e)
moves f io_thread old p e h = omega (arith, ap weight e)
moves f persist_thread old p e h = omega (arith, ap weight e)

after_persist-weight :
    (result : SaveResult) (main : MainPhase)
    → main_weight (after_persist result main) ≤ main_weight main
unfolding main_weight
after_persist-weight (returned ok) main = omega arith
after_persist-weight thrown main = omega arith

after_shutdown-weight : (result : SaveResult) → main_weight (after_shutdown result) ≡ 0
unfolding main_weight
after_shutdown-weight (returned ok) = refl
after_shutdown-weight thrown = refl

Fits-weight : (t : ThreadName) (p : Phase) → Fits t p → weight p ≤ 11
unfolding weight
Fits-weight t ended h = omega arith
Fits-weight t test h = omega arith
Fits-weight t starting h = omega arith
Fits-weight t body h = omega arith
Fits-weight control_thread (batch n) h = omega (arith, h)
Fits-weight estop_thread (batch n) h = absurd h
Fits-weight sensor_thread (batch n) h = absurd h
Fits-weight io_thread (batch n) h = absurd h
Fits-weight persist_thread (batch n) h = absurd h

main_weight_le : (m : MainPhase) → main_weight m ≤ 2
unfolding main_weight
main_weight_le m = ground arith

module _ {D : Type 0} (ulong : ℕ) (show : D → Bytes) where
  measure : Runtime D → ℕ
  measure s = thread_weight s.phase + main_weight s.main

  Tick-measure :
      {s u : Runtime D}
      → Tick ulong show s u
      → stop_requested s.core.vehicle.stop ≡ true
      → measure u < measure s
  unfolding measure weight
  Tick-measure (enters t p e) h = absurd (ground (arith, e, h))
  Tick-measure {s} (leaves t p e) h = omega (arith, moves s.phase t test ended p (omega arith))
  Tick-measure {s} (checks_estop p) h =
      omega (arith, moves s.phase estop_thread body test p (omega arith))
  Tick-measure {s} (starts_control p) h =
      omega (arith, moves s.phase control_thread starting test p (omega arith))
  Tick-measure {s} (skips_batch p e) h =
      omega (arith, moves s.phase control_thread body test p (omega arith))
  Tick-measure {s} (begins_batch p e) h =
      omega (arith, moves s.phase control_thread body (batch 8) p (omega arith))
  Tick-measure {s} (serves now_ns n c r v p e) h =
      omega (arith, moves s.phase control_thread (batch (suc n)) (batch n) p (omega arith))
  Tick-measure {s} (finds_none now_ns n r v p e) h =
      omega (arith, moves s.phase control_thread (batch (suc n)) test p (omega arith))
  Tick-measure {s} (ends_batch p) h =
      omega (arith, moves s.phase control_thread (batch 0) test p (omega arith))
  Tick-measure {s} (senses now_ns frame joints v p e) h =
      omega (arith, moves s.phase sensor_thread body test p (omega arith))
  Tick-measure {s} (pumps r v p e) h =
      omega (arith, moves s.phase io_thread body test p (omega arith))
  Tick-measure {s} (persists env result disk p e) h = omega (
    arith,
    moves s.phase persist_thread body test p (omega arith),
    after_persist-weight result s.main,
  )

  Step-measure :
      {s u : Runtime D}
      → Step ulong show s u
      → stop_requested s.core.vehicle.stop ≡ true
      → measure u < measure s
  unfolding measure main_weight
  Step-measure (ticks run t) h = Tick-measure t h
  Step-measure {s} (stops m e) h = omega (arith, ap main_weight m)
  Step-measure {s} (finishes env result core m all e) h =
      omega (arith, ap main_weight m, after_shutdown-weight result)

  pub steps : {s u : Runtime D} → Reach ulong show s u → ℕ
  steps here = 0
  steps (next r st) = suc (steps r)

  steps-measure :
      {s u : Runtime D} (r : Reach ulong show s u)
      → Inv ulong show s
      → stop_requested s.core.vehicle.stop ≡ true
      → steps r + measure u ≤ measure s
  unfolding steps
  steps-measure here i h = omega arith
  steps-measure (next r st) i h =
      let before = steps-measure r i h in
      let less = Step-measure st ((Reach-Safely ulong show r i).stop_kept h) in
      omega (arith, before, less)

  measure_le : (s : Runtime D) → AllFit ulong show s → measure s ≤ 57
  unfolding measure thread_weight main_weight
  measure_le s k =
      let a = Fits-weight estop_thread _ (k estop_thread) in
      let b = Fits-weight control_thread _ (k control_thread) in
      let c = Fits-weight sensor_thread _ (k sensor_thread) in
      let d = Fits-weight io_thread _ (k io_thread) in
      let e = Fits-weight persist_thread _ (k persist_thread) in
      let m = main_weight_le s.main in omega (arith, a, b, c, d, e, m)

  -- The run has ended, or goes on with a step to a lighter state.
  over_or_on :
      (s u : Runtime D)
      → Inv ulong show s
      → AllFit ulong show s
      → stop_requested s.core.vehicle.stop ≡ true
      → Reach ulong show s u
      → (is_running u.main ≡ false)
        ⊎ ((w : Runtime D) × Step ulong show u w × (measure w < measure u))
  over_or_on s u i k h r = elim (Bool-cases (is_running u.main)) [
    | inr over ↦ inl over
    | inl run ↦
        let go = (Reach-Safely ulong show r i).stop_kept h in
        let (w, st) = progress ulong show u (Reach-AllFit ulong show r k) run go in
        inr (w, st, Step-measure st go)
  ]

  -- The run goes on for as many steps as the measure allows.
  run_on :
      (n : ℕ) (s u : Runtime D)
      → Inv ulong show s
      → AllFit ulong show s
      → stop_requested s.core.vehicle.stop ≡ true
      → Reach ulong show s u
      → measure u ≤ n
      → (w : Runtime D) × Reach ulong show s w × (is_running w.main ≡ false)
  run_on zero s u i k h r b = elim (over_or_on s u i k h r) [
    | inl over ↦ (u, r, over)
    | inr (w, st, less) ↦ absurd (omega (arith, less, b))
  ]
  run_on (suc n) s u i k h r b = elim (over_or_on s u i k h r) [
    | inl over ↦ (u, r, over)
    | inr (w, st, less) ↦ run_on n s w i k h (next r st) (omega (arith, less, b))
  ]

  -- With a logger whose fatal calls come back, and once the stop is asked for, in whatever state of
  -- the running system: no run goes on for more
  -- than 57 steps, none gets stuck before `run` has returned or the process has died of an
  -- exception, and so some run leads to that end.
  pub shutdown_ends :
      (lockout : RejectReason) (opens : Bool) (disk : Disk) (frame : SensorFrame) (core : UgvCore)
      → IsUp lockout opens disk core
      → (s : Runtime D) → Reach ulong show (start frame core) s
      → stop_requested s.core.vehicle.stop ≡ true
      → ((u : Runtime D) (r : Reach ulong show s u)
          → (steps r ≤ 57) × ((is_running u.main ≡ true) → ((w : Runtime D) × Step ulong show u w)))
        × ((w : Runtime D) × Reach ulong show s w × (is_running w.main ≡ false))
  shutdown_ends lockout opens disk frame core up s r h =
      let i = Reach-Inv ulong show r (up-Inv ulong show lockout opens disk frame core up) in
      let k = Reach-AllFit ulong show r (start-AllFit ulong show frame core) in
      let small = measure_le s k in
      (
        (λ u q. (
          (let b = steps-measure q i h in omega (arith, b, small)),
          λ run.
              progress ulong show u (Reach-AllFit ulong show q k) run
                ((Reach-Safely ulong show q i).stop_kept h),
        )),
        run_on 57 s s i k h here small,
      )
