-- ===== src/Config/System/Joins.antt =====
-- When `run` goes on past its joins.
use mathlib.Core.Path.{subst}
use arcraven_ugv_core.Common.{ℕ, ◌≡◌, ◌≢◌, refl, true, Bytes, arith}
use arcraven_ugv_core.Core.StateStore.{returned, thrown}
use arcraven_ugv_core.Config.System.{
  Task, main_task, estop_task, control_task, sensor_task, io_task, persist_task, Pc, says, stuck,
  ended, saving, has_returned, Shared,
}
use arcraven_ugv_core.Config.System.Moves.{
  Move, ignores, logs, locks, finishes, at, is_worker, WorkersEnded,
}

-- From where `run` can no longer wait for a thread, every thread has ended.
abbrev pub Joined : Pc → (Task → Pc) → Type 0
Joined (says lvl msg k) f = Joined k f
Joined (stuck k) f = Joined k f
Joined saving f = WorkersEnded f
Joined (has_returned code) f = WorkersEnded f
Joined _ f = Unit

module _ {D : Type 0} (ulong : ℕ) (show : D → Bytes) where
  -- A task that has ended moves no more.
  from_ended : {m m' : Shared D} {t : Task} {p' : Pc} → Move ulong show m t ended m' p' → ⊥
  from_ended mv = elim mv [ ]

  pub ended-stays :
      {m m' : Shared D} {t : Task} {p p' : Pc} → Move ulong show m t p m' p' → p ≢ ended
  ended-stays {m = m} {m' = m'} {t = t} {p' = p'} mv e =
      from_ended (subst (λ x. Move ulong show m t x m' p') e mv)

  main-Joined :
      {m m' : Shared D} {p p' : Pc} (f : Task → Pc)
      → Move ulong show m main_task p m' p'
      → Joined p f
      → Joined p' f
  main-Joined f (ignores e) j = j
  main-Joined f (logs stamp tid source l h e) j = j
  main-Joined f (locks stamp tid source h e) j = j
  main-Joined f (finishes env (returned ok) core e) j = j
  main-Joined f (finishes env thrown core e) j = tt
  main-Joined f _ j = tt

  -- Two states of the tasks with the same ends.
  Joined-same :
      (p : Pc) (f g : Task → Pc) → (WorkersEnded f → WorkersEnded g) → Joined p f → Joined p g
  Joined-same (says lvl msg k) f g w j = Joined-same k f g w j
  Joined-same (stuck k) f g w j = Joined-same k f g w j
  Joined-same saving f g w j = w j
  Joined-same (has_returned code) f g w j = w j
  Joined-same _ f g w j = tt

  pub main_moved : (f : Task → Pc) (p : Pc) → WorkersEnded f → WorkersEnded (at f main_task p)
  main_moved f p w main_task h = absurd (ground (arith, h))
  main_moved f p w estop_task h = w estop_task h
  main_moved f p w control_task h = w control_task h
  main_moved f p w sensor_task h = w sensor_task h
  main_moved f p w io_task h = w io_task h
  main_moved f p w persist_task h = w persist_task h

  worker-Joined :
      (f : Task → Pc) (t : Task) (p : Pc) {m m' : Shared D}
      → Move ulong show m t (f t) m' p
      → is_worker t ≡ true
      → Joined (f main_task) f
      → Joined (f main_task) (at f t p)
  worker-Joined f t p mv h j =
      Joined-same (f main_task) f (at f t p) (λ w. absurd (ended-stays mv (w t h))) j

  pub moved-Joined :
      (f : Task → Pc) (t : Task) (p : Pc) {m m' : Shared D}
      → Move ulong show m t (f t) m' p
      → Joined (f main_task) f
      → Joined (at f t p main_task) (at f t p)
  moved-Joined f main_task p mv j =
      Joined-same p f (at f main_task p) (main_moved f p) (main-Joined f mv j)
  moved-Joined f estop_task p mv j = worker-Joined f estop_task p mv refl j
  moved-Joined f control_task p mv j = worker-Joined f control_task p mv refl j
  moved-Joined f sensor_task p mv j = worker-Joined f sensor_task p mv refl j
  moved-Joined f io_task p mv j = worker-Joined f io_task p mv refl j
  moved-Joined f persist_task p mv j = worker-Joined f persist_task p mv refl j
