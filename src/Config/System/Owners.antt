-- ===== src/Config/System/Owners.antt =====
-- Which task can stand where, as long as no call of the logger holds the mutex for good.
use arcraven_ugv_core.Common.{
  ℕ, ◌≡◌, inl, inr, false, List, Option, none, some, Bytes, arith, Bool-cases,
}
use arcraven_ugv_core.Command.Types.{CommandEnvelope, CommandResult}
use arcraven_ugv_core.Core.StateStore.{SaveResult, returned, thrown}
use arcraven_ugv_core.Utils.Logger.{Logger}
use arcraven_ugv_core.Config.System.{
  Task, main_task, estop_task, control_task, sensor_task, io_task, persist_task, Pc, says, test,
  body, ended, requesting, starting, batch, storing, stopping, answered, publishing, pumping,
  submitting, waiting, shutdown, choosing, halting, joining, saving, has_returned, died, Shared,
  executed, is_stop_done, says_warning, submits_parsed,
}
use arcraven_ugv_core.Config.System.Moves.{
  Move, ignores, logs, locks, enters, leaves, serves, reads, persists, finishes, after_persist,
  after_shutdown, System, Step, moves, joins, writes, Reach, here, next, start,
}
use arcraven_ugv_core.Subsystems.Interfaces.{SensorFrame}
use arcraven_ugv_core.Config.Boot.{UgvCore}
use arcraven_ugv_core.Config.System.Safety.{after_step}

-- A task is in its own code, and not in a log call for good.
abbrev pub Fits : Task → Pc → Type 0
Fits t (says lvl msg k) = Fits t k
Fits main_task waiting = Unit
Fits main_task shutdown = Unit
Fits main_task choosing = Unit
Fits main_task halting = Unit
Fits main_task joining = Unit
Fits main_task saving = Unit
Fits main_task (has_returned code) = Unit
Fits main_task died = Unit
Fits main_task p = ⊥
Fits t test = Unit
Fits t body = Unit
Fits t ended = Unit
Fits estop_task requesting = Unit
Fits control_task starting = Unit
Fits control_task (batch n) = Unit
Fits control_task (storing n c) = Unit
Fits control_task (stopping n c) = Unit
Fits control_task (answered n p) = Unit
Fits control_task (publishing n p) = Unit
Fits io_task (pumping lines) = Unit
Fits io_task (submitting env lines) = Unit
Fits persist_task died = Unit
Fits t p = ⊥

executed-Fits :
    (n : ℕ) (c : CommandEnvelope) (res : CommandResult) → Fits control_task (executed n c res)
executed-Fits n c res = elim (Bool-cases (is_stop_done c res)) [ inl e ↦ rw e tt | inr e ↦ rw e tt ]

read-Fits :
    (w : Option Bytes) (o : Option CommandEnvelope) (lines : List Bytes)
    → Fits io_task (says_warning w (submits_parsed o lines))
read-Fits none none lines = tt
read-Fits none (some env) lines = tt
read-Fits (some msg) none lines = tt
read-Fits (some msg) (some env) lines = tt

after_persist-Fits : (result : SaveResult) → Fits persist_task (after_persist result)
after_persist-Fits (returned ok) = tt
after_persist-Fits thrown = tt

after_shutdown-Fits : (result : SaveResult) → Fits main_task (after_shutdown result)
after_shutdown-Fits (returned ok) = tt
after_shutdown-Fits thrown = tt

-- Only a task with a loop stands before its test.
loop-Fits : (t : Task) → Fits t test → Fits t body × Fits t ended
loop-Fits main_task x = absurd x
loop-Fits estop_task x = (tt, tt)
loop-Fits control_task x = (tt, tt)
loop-Fits sensor_task x = (tt, tt)
loop-Fits io_task x = (tt, tt)
loop-Fits persist_task x = (tt, tt)

module _ {D : Type 0} (ulong : ℕ) (show : D → Bytes) where
  Move-held :
      {m m' : Shared D} {t : Task} {p p' : Pc}
      → Move ulong show m t p m' p'
      → m'.held ≡ false
      → m.held ≡ false
  Move-held (locks stamp tid source f e) h = f
  Move-held _ h = h

  Move-Fits :
      {m m' : Shared D} {t : Task} {p p' : Pc}
      → Move ulong show m t p m' p'
      → m'.held ≡ false
      → Fits t p
      → Fits t p'
  Move-Fits (ignores e) h x = x
  Move-Fits (logs stamp tid source l f e) h x = x
  Move-Fits (locks stamp tid source f e) h x = absurd (ground (arith, h))
  Move-Fits {t = t} (enters e) h x = (loop-Fits t x).0
  Move-Fits {t = t} (leaves e) h x = (loop-Fits t x).1
  Move-Fits (serves {n} now_ns c hd r res v e w y) h x = executed-Fits n c res
  Move-Fits reads h x = read-Fits _ _ _
  Move-Fits (persists env result disk e) h x = after_persist-Fits result
  Move-Fits (finishes env result core e) h x = after_shutdown-Fits result
  Move-Fits _ h x = tt

  abbrev pub AllFit : System D → Type 0
  AllFit s = s.mem.held ≡ false → (t : Task) → Fits t (s.pc t)

  Step-AllFit : {s u : System D} → Step ulong show s u → AllFit s → AllFit u
  Step-AllFit {s} (moves {t} {m} {p} alive mv) k h =
      let before = Move-held mv h in
      after_step Fits s.pc t p (Move-Fits mv h (k before t)) (k before)
  Step-AllFit {s} (joins e all) k h = after_step Fits s.pc main_task saving tt (k h)
  Step-AllFit (writes text) k h = k h

  pub Reach-AllFit : {s u : System D} → Reach ulong show s u → AllFit s → AllFit u
  Reach-AllFit here k = k
  Reach-AllFit (next r st) k = Step-AllFit st (Reach-AllFit r k)

  pub start-AllFit :
      (frame : SensorFrame) (l : Logger) (core : UgvCore) → AllFit (start frame l core)
  start-AllFit frame l core h = elim [
    | main_task ↦ tt
    | estop_task ↦ tt
    | control_task ↦ tt
    | sensor_task ↦ tt
    | io_task ↦ tt
    | persist_task ↦ tt
  ]
