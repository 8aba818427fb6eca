-- ===== src/Config/System/Progress.antt =====
-- Whether a task can take a step, while no call of the logger holds the mutex for good.
use arcraven_ugv_core.Common.{ℕ, ◌≡◌, ◌≢◌, ◌⊎◌, inl, inr, refl, true, false, Bytes, arith}
use arcraven_ugv_core.Core.StopController.{stop_requested}
use arcraven_ugv_core.Config.System.{
  Task, main_task, estop_task, control_task, sensor_task, io_task, persist_task, Pc, ended, joining,
  died,
}
use arcraven_ugv_core.Config.System.Moves.{
  System, Step, moves, joins, here, next, is_worker, WorkersEnded,
}
use arcraven_ugv_core.Config.System.Hangs.{is_returned}
use arcraven_ugv_core.Config.System.Bounded.{work}
use arcraven_ugv_core.Config.System.Owners.{Fits, AllFit}
use arcraven_ugv_core.Config.System.CanMove.{CanMove, worker-CanMove, main-CanMove}

module _ {D : Type 0} (ulong : ℕ) (show : D → Bytes) where
  -- A step of a task, or the end of the joins.
  abbrev pub GoesOn : System D → Type 0
  GoesOn s = (u : System D) × (st : Step ulong show s u) × (work ulong show (next here st) ≡ 1)

  move-GoesOn :
      (s : System D) (t : Task)
      → ((u : Task) → s.pc u ≢ died)
      → CanMove ulong show s.mem t (s.pc t)
      → GoesOn s
  unfolding work
  move-GoesOn s t alive (m, p, mv) = (_, moves alive mv, refl)

  all_ended_or_GoesOn :
      (s : System D)
      → s.mem.held ≡ false
      → ((u : Task) → s.pc u ≢ died)
      → ((t : Task) → Fits t (s.pc t))
      → WorkersEnded s.pc ⊎ GoesOn s
  all_ended_or_GoesOn s h alive k =
      by_tasks (one estop_task refl) (one control_task refl) (one sensor_task refl)
        (one io_task refl) (one persist_task refl)
    where
      one : (t : Task) → is_worker t ≡ true → (s.pc t ≡ ended) ⊎ GoesOn s
      one t w = elim (worker-CanMove ulong show s.mem t (s.pc t) h w (alive t) (k t)) [
        | inl e ↦ inl e
        | inr m ↦ inr (move-GoesOn s t alive m)
      ]

      by_tasks :
          (s.pc estop_task ≡ ended) ⊎ GoesOn s
          → (s.pc control_task ≡ ended) ⊎ GoesOn s
          → (s.pc sensor_task ≡ ended) ⊎ GoesOn s
          → (s.pc io_task ≡ ended) ⊎ GoesOn s
          → (s.pc persist_task ≡ ended) ⊎ GoesOn s
          → WorkersEnded s.pc ⊎ GoesOn s
      by_tasks (inl a) (inl b) (inl c) (inl d) (inl e) = inl (elim [
        | main_task ↦ λ w. absurd (ground (arith, w))
        | estop_task ↦ λ w. a
        | control_task ↦ λ w. b
        | sensor_task ↦ λ w. c
        | io_task ↦ λ w. d
        | persist_task ↦ λ w. e
      ])
      by_tasks (inr m) b c d e = inr m
      by_tasks (inl a) (inr m) c d e = inr m
      by_tasks (inl a) (inl b) (inr m) d e = inr m
      by_tasks (inl a) (inl b) (inl c) (inr m) e = inr m
      by_tasks (inl a) (inl b) (inl c) (inl d) (inr m) = inr m

  joining-cases : (p : Pc) → (p ≡ joining) ⊎ (p ≢ joining)
  joining-cases joining = inl refl
  joining-cases _ = inr (λ e. cc)

  -- While `run` has not returned, no task has died, the stop is asked for and nobody holds the mutex
  -- for good, the system goes on.
  pub progress :
      (s : System D)
      → AllFit ulong show s
      → s.mem.held ≡ false
      → ((u : Task) → s.pc u ≢ died)
      → is_returned (s.pc main_task) ≡ false
      → stop_requested s.mem.core.vehicle.stop ≡ true
      → GoesOn s
  unfolding work
  progress s k h alive r stop = elim (joining-cases (s.pc main_task)) [
    | inr n ↦ move-GoesOn s main_task alive (
        main-CanMove ulong show s.mem (s.pc main_task) h (alive main_task) r n (k h main_task) stop)
    | inl e ↦ elim (all_ended_or_GoesOn s h alive (k h)) [
      | inl all ↦ (_, joins e all, refl)
      | inr go ↦ go
    ]
  ]
