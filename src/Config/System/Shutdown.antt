-- ===== src/Config/System/Shutdown.antt =====
-- The ends of a run of the system, once the stop is asked for.
use arcraven_ugv_core.Common.{
  ℕ, zero, suc, ◌+◌, ◌*◌, ◌≤◌, ◌≡◌, ◌≢◌, ◌⊎◌, inl, inr, refl, Bool, true, Bytes, arith, Bool-cases,
}
use arcraven_ugv_core.Models.RejectReason.{RejectReason}
use arcraven_ugv_core.Command.Router.{make}
use arcraven_ugv_core.Core.EStopLatch.{latched}
use arcraven_ugv_core.Core.StopController.{stop_requested}
use arcraven_ugv_core.Core.StateStore.{Disk}
use arcraven_ugv_core.Subsystems.Interfaces.{SensorFrame}
use arcraven_ugv_core.Utils.Logger.{Logger}
use arcraven_ugv_core.Config.Handlers.Safe.{HasSafe}
use arcraven_ugv_core.Config.Handlers.Tidy.{HasTidy, register_default_command_handlers-Tidy}
use arcraven_ugv_core.Config.Boot.{UgvCore}
use arcraven_ugv_core.Config.Boot.Outcome.{IsUp}
use arcraven_ugv_core.Config.System.{
  Task, main_task, estop_task, control_task, sensor_task, io_task, persist_task, Pc, died,
}
use arcraven_ugv_core.Config.System.Moves.{
  System, Step, moves, joins, writes, Reach, here, next, start,
}
use arcraven_ugv_core.Config.System.Kept.{Reach-Kept}
use arcraven_ugv_core.Config.System.Safety.{Reach-Inv, up-Inv}
use arcraven_ugv_core.Config.System.Hangs.{is_returned}
use arcraven_ugv_core.Config.System.Held.{held-latched}
use arcraven_ugv_core.Config.System.Bounded.{work, written, remaining, Reach-Tidy, work-le}
use arcraven_ugv_core.Config.System.Owners.{AllFit, Reach-AllFit, start-AllFit}
use arcraven_ugv_core.Config.System.Progress.{GoesOn, progress}

-- `run` has returned, a task has died of an exception, or a call of the logger holds the mutex for
-- good.
abbrev Finished : {D : Type 0} → System D → Type 0
Finished s =
    (is_returned (s.pc main_task) ≡ true) ⊎ (((t : Task) × (s.pc t ≡ died)) ⊎ (s.mem.held ≡ true))

-- The same, in a system that began with the logger `l`: such a call is then a fatal line of an
-- emergency stop, under a logger that flushes every line.
abbrev pub IsOver : {D : Type 0} → Logger → System D → Type 0
IsOver l s =
    (is_returned (s.pc main_task) ≡ true)
    ⊎ (((t : Task) × (s.pc t ≡ died))
        ⊎ ((s.mem.held ≡ true)
            × (l.cfg.flush_always ≡ true)
            × (latched s.mem.core.vehicle.estop ≡ true)))

died-cases : (p : Pc) → (p ≡ died) ⊎ (p ≢ died)
died-cases died = inl refl
died-cases _ = inr (λ e. cc)

alive-cases : (f : Task → Pc) → ((t : Task) × (f t ≡ died)) ⊎ ((t : Task) → f t ≢ died)
alive-cases f =
    by_tasks (died-cases (f main_task)) (died-cases (f estop_task)) (died-cases (f control_task))
      (died-cases (f sensor_task)) (died-cases (f io_task)) (died-cases (f persist_task))
  where
    by_tasks :
        (f main_task ≡ died) ⊎ (f main_task ≢ died)
        → (f estop_task ≡ died) ⊎ (f estop_task ≢ died)
        → (f control_task ≡ died) ⊎ (f control_task ≢ died)
        → (f sensor_task ≡ died) ⊎ (f sensor_task ≢ died)
        → (f io_task ≡ died) ⊎ (f io_task ≢ died)
        → (f persist_task ≡ died) ⊎ (f persist_task ≢ died)
        → ((t : Task) × (f t ≡ died)) ⊎ ((t : Task) → f t ≢ died)
    by_tasks (inl e) b c d x y = inl (main_task, e)
    by_tasks a (inl e) c d x y = inl (estop_task, e)
    by_tasks a b (inl e) d x y = inl (control_task, e)
    by_tasks a b c (inl e) x y = inl (sensor_task, e)
    by_tasks a b c d (inl e) y = inl (io_task, e)
    by_tasks a b c d x (inl e) = inl (persist_task, e)
    by_tasks (inr a) (inr b) (inr c) (inr d) (inr x) (inr y) = inr (elim [
      | main_task ↦ a
      | estop_task ↦ b
      | control_task ↦ c
      | sensor_task ↦ d
      | io_task ↦ x
      | persist_task ↦ y
    ])

module _ {D : Type 0} (ulong : ℕ) (show : D → Bytes) where
  Finished-or_GoesOn :
      (s : System D)
      → AllFit ulong show s
      → stop_requested s.mem.core.vehicle.stop ≡ true
      → Finished s ⊎ GoesOn ulong show s
  Finished-or_GoesOn s k h = elim (Bool-cases (is_returned (s.pc main_task))) [
    | inl over ↦ inl (inl over)
    | inr on ↦ elim (alive-cases s.pc) [
      | inl dead ↦ inl (inr (inl dead))
      | inr alive ↦ elim (Bool-cases s.mem.held) [
        | inl held ↦ inl (inr (inr held))
        | inr free ↦ inr (progress ulong show s k free alive on h)
      ]
    ]
  ]

  no_writing :
      {s u : System D} (st : Step ulong show s u)
      → work ulong show (next here st) ≡ 1
      → written ulong show (next here st) ≡ 0
  unfolding work written
  no_writing (moves alive mv) e = refl
  no_writing (joins e all) h = refl
  no_writing (writes text) h = absurd (omega (arith, h))

  -- From `u`, which `s` has reached, the run goes on for as many steps as remain.
  run_on :
      (n : ℕ) (s u : System D)
      → Reach ulong show s u
      → AllFit ulong show u
      → HasSafe u.mem.core.cmd_router
      → HasTidy u.mem.core.cmd_router
      → stop_requested u.mem.core.vehicle.stop ≡ true
      → remaining ulong show u ≤ n
      → (w : System D) × Reach ulong show s w × Finished w
  unfolding work
  run_on zero s u r k a b h e = elim (Finished-or_GoesOn u k h) [
    | inl over ↦ (u, r, over)
    | inr (w, st, one) ↦
        absurd (omega (arith, work-le ulong show (next here st) a b h, one, no_writing st one, e))
  ]
  run_on (suc n) s u r k a b h e = elim (Finished-or_GoesOn u k h) [
    | inl over ↦ (u, r, over)
    | inr (w, st, one) ↦
        let step = next here st in
        let (kept, a') = Reach-Kept ulong show step a in
        run_on n s w (next r st) (Reach-AllFit ulong show step k) a' (Reach-Tidy ulong show step b)
          (kept.stop_kept h)
          (omega (arith, work-le ulong show step a b h, one, no_writing st one, e))
  ]

  Reach-trans :
      {s t u : System D} → Reach ulong show s t → Reach ulong show t u → Reach ulong show s u
  Reach-trans r here = r
  Reach-trans r (next q st) = next (Reach-trans r q) st

  -- The system as the boot leaves it, with any logger.
  module _ (lockout : RejectReason) (opens_state : Bool) (disk : Disk) (frame : SensorFrame)
      (l : Logger) (core : UgvCore) (up : IsUp lockout opens_state disk core) where
    Finished-IsOver :
        {s : System D} → Reach ulong show (start frame l core) s → Finished s → IsOver l s
    Finished-IsOver r (inl over) = inl over
    Finished-IsOver r (inr (inl dead)) = inr (inl dead)
    Finished-IsOver r (inr (inr held)) =
        let (flushes, latch) =
          held-latched ulong show lockout opens_state disk frame l core up r held in
        inr (inr (held, flushes, latch))

    -- With any logger, and once the stop is asked for, in whatever state `s` of the system: no run
    -- from there has more steps of the tasks than `remaining s` and three for each byte that clients
    -- write meanwhile; wherever it gets to, a task can take a step, or `run` has returned, a task has
    -- died of an exception, or the stop is latched, every line is flushed and a call of the logger
    -- holds the mutex for good; and so some run leads to one of these ends.
    pub stop_requested-Finishes :
        (s : System D)
        → Reach ulong show (start frame l core) s
        → stop_requested s.mem.core.vehicle.stop ≡ true
        → ((u : System D) (r : Reach ulong show s u)
            → (work ulong show r ≤ remaining ulong show s + 3 * written ulong show r)
              × (IsOver l u ⊎ GoesOn ulong show u))
          × ((w : System D) × Reach ulong show s w × IsOver l w)
    unfolding make
    stop_requested-Finishes s r h =
        let a =
          (Reach-Inv ulong show r
            (up-Inv ulong show lockout opens_state disk frame l core up)).safe in
        let fresh : HasTidy core.cmd_router =
          rw up.routed (register_default_command_handlers-Tidy lockout _ tt) in
        let b = Reach-Tidy ulong show r fresh in
        let k = Reach-AllFit ulong show r (start-AllFit ulong show frame l core) in
        let (w, q, over) = run_on (remaining ulong show s) s s here k a b h (omega arith) in
        (
          (λ u q. (
            (let bound = work-le ulong show q a b h in omega (arith, bound)),
            elim (Finished-or_GoesOn u (Reach-AllFit ulong show q k)
                ((Reach-Kept ulong show q a).0.stop_kept h)) [
                  | inl over ↦ inl (Finished-IsOver (Reach-trans r q) over)
                  | inr on ↦ inr on
                ],
          )),
          (w, q, Finished-IsOver (Reach-trans r q) over),
        )
