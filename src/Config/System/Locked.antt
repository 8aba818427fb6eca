-- ===== src/Config/System/Locked.antt =====
-- The system under a logger that flushes every line, as main.cpp sets it up: where its tasks can stand.
use arcraven_ugv_core.Common.{
  ℕ, ◌≡◌, ◌⊎◌, inl, inr, refl, ap, ◌∙◌, true, List, Option, none, some, Bytes, arith, Bool-cases,
  ltb,
}
use arcraven_ugv_core.Command.Types.{CommandEnvelope, CommandResult}
use arcraven_ugv_core.Command.Router.{execute}
use arcraven_ugv_core.Core.EStopLatch.{latched}
use arcraven_ugv_core.Core.StateStore.{SaveResult, returned, thrown}
use arcraven_ugv_core.Utils.Logger.{
  Level, level_value, min_level, is_fatal, Source, Logger, log, flush, write_line,
}
use arcraven_ugv_core.Config.Handlers.Quiet.{HasQuiet, execute-Quiet}
use arcraven_ugv_core.Config.Ticks.{control_start}
use arcraven_ugv_core.Config.System.{
  Task, control_task, Pc, says, requesting, stopping, Shared, remember, publish, executed,
  is_stop_done, says_warning, submits_parsed,
}
use arcraven_ugv_core.Config.System.Moves.{
  Move, ignores, logs, locks, leaves, cuts, serves, latches, stores, stops, remembers, reads,
  persists, warns, wakes, halts, disables, finishes, after_persist, after_shutdown,
}
use arcraven_ugv_core.Config.System.Kept.{take_front-handlers}
use arcraven_ugv_core.Config.System.Safety.{Handling}

-- A place that a task gets to when no fatal line comes back.
abbrev pub Sane : Pc → Type 0
Sane (says lvl msg k) = (is_fatal lvl ≡ true) ⊎ Sane k
Sane requesting = ⊥
Sane (stopping n c) = ⊥
Sane _ = Unit

executed-Sane : (n : ℕ) (c : CommandEnvelope) (res : CommandResult) → Sane (executed n c res)
executed-Sane n c res = elim (Bool-cases (is_stop_done c res)) [
  | inl e ↦ rw e (inr tt)
  | inr e ↦ rw e tt
]

read-Sane :
    (w : Option Bytes) (o : Option CommandEnvelope) (lines : List Bytes)
    → Sane (says_warning w (submits_parsed o lines))
read-Sane none none lines = tt
read-Sane none (some env) lines = tt
read-Sane (some msg) none lines = inr tt
read-Sane (some msg) (some env) lines = inr tt

after_persist-Sane : (result : SaveResult) → Sane (after_persist result)
after_persist-Sane (returned ok) = tt
after_persist-Sane thrown = tt

after_shutdown-Sane : (result : SaveResult) → Sane (after_shutdown result)
after_shutdown-Sane (returned ok) = inr tt
after_shutdown-Sane thrown = tt

-- No minimum keeps a fatal line back.
fatal_kept :
    (lvl low : Level) → ltb (level_value lvl) (level_value low) ≡ true → is_fatal lvl ≡ true → ⊥
unfolding level_value
fatal_kept lvl low e f = ground (arith, e, f)

fatal_stuck :
    (stamp tid msg : Bytes) (lvl : Level) (source : Source) (l l' : Logger)
    → l.cfg.flush_always ≡ true
    → log stamp tid lvl msg source l ≡ some l'
    → is_fatal lvl ≡ true
    → ⊥
unfolding log flush level_value
fatal_stuck stamp tid msg lvl source l l' f e h = ground (arith, f, e, h)

pub log-cfg :
    (stamp tid msg : Bytes) (lvl : Level) (source : Source) (l l' : Logger)
    → log stamp tid lvl msg source l ≡ some l'
    → l'.cfg.flush_always ≡ l.cfg.flush_always
unfolding log flush write_line
log-cfg stamp tid msg lvl source l l' e = ground (arith, e)

abbrev pub Flushes : {D : Type 0} → Shared D → Type 0
Flushes m = m.log_state.cfg.flush_always ≡ true

module _ {D : Type 0} (ulong : ℕ) (show : D → Bytes) where
  pub Move-flush_always :
      {m m' : Shared D} {t : Task} {p p' : Pc}
      → Move ulong show m t p m' p'
      → m'.log_state.cfg.flush_always ≡ m.log_state.cfg.flush_always
  unfolding write_line
  Move-flush_always {m = m} (logs {lvl = lvl} {msg = msg} stamp tid source l h e) =
      log-cfg stamp tid msg lvl source m.log_state l e
  Move-flush_always (locks stamp tid source h e) = refl
  Move-flush_always _ = refl

  pub Move-Sane :
      {m m' : Shared D} {t : Task} {p p' : Pc}
      → Move ulong show m t p m' p'
      → Flushes m
      → Sane p
      → Sane p'
  Move-Sane {m = m} (ignores {lvl = lvl} e) f (inl x) =
      absurd (fatal_kept lvl (min_level m.log_state) e x)
  Move-Sane (ignores e) f (inr x) = x
  Move-Sane {m = m} (logs {lvl = lvl} {msg = msg} stamp tid source l h e) f (inl x) =
      absurd (fatal_stuck stamp tid msg lvl source m.log_state l f e x)
  Move-Sane (logs stamp tid source l h e) f (inr x) = x
  Move-Sane (locks stamp tid source h e) f x = tt
  Move-Sane (leaves e) f x = inr tt
  Move-Sane (cuts e) f x = inl refl
  Move-Sane (serves {n} now_ns c h r res v e w y) f x = executed-Sane n c res
  Move-Sane stores f x = inl refl
  Move-Sane remembers f x = inr tt
  Move-Sane reads f x = read-Sane _ _ _
  Move-Sane (persists env result disk e) f x = after_persist-Sane result
  Move-Sane (wakes e) f x = inr tt
  Move-Sane (warns e) f x = inr tt
  Move-Sane halts f x = inl refl
  Move-Sane (disables e) f x = inr tt
  Move-Sane (finishes env result core e) f x = after_shutdown-Sane result
  Move-Sane _ f x = tt

  pub control-Caught :
      {m m' : Shared D} {p p' : Pc}
      → Move ulong show m control_task p m' p'
      → HasQuiet m.core.cmd_router
      → Sane p
      → (latched m.core.vehicle.estop ≡ true → Handling p)
      → latched m'.core.vehicle.estop ≡ true
      → Handling p'
  unfolding control_start remember publish
  control-Caught (ignores e) q x k h = k h
  control-Caught (logs stamp tid source l f e) q x k h = k h
  control-Caught (locks stamp tid source f e) q x k h = k h
  control-Caught {m = m} (serves now_ns c hd r res v e w y) q x k h =
      let (found, _) = take_front-handlers m.core.cmd_router r c hd e in
      let ran = ap (λ hd'. execute now_ns c hd' m.core.vehicle) found ∙ y in
      absurd (
        k (
          execute-Quiet now_ns c m.core.vehicle m.core.cmd_router q w
            (ap (λ out. latched out.1.estop) ran ∙ h)))
  control-Caught (latches now_ns c hd r e w) q x k h = tt
  control-Caught stores q x k h = tt
  control-Caught stops q x k h = absurd x
  control-Caught _ q x k h = absurd (k h)
