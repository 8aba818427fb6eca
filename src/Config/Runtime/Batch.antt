-- ===== src/Config/Runtime/Batch.antt =====
-- What the control thread comes to when it takes its steps with nobody in between.
use mathlib.Core.List.{foldl}
use arcraven_ugv_core.Common.{
  ℕ, zero, suc, ◌≡◌, refl, ap, inl, inr, true, false, Option, none, some, Bytes, Bool-cases, All,
  drop, take,
}
use arcraven_ugv_core.Models.RejectReason.{RejectReason}
use arcraven_ugv_core.Command.Types.{CommandEnvelope, CommandResult}
use arcraven_ugv_core.Command.Router.{CommandRouter, process_one, process_some}
use arcraven_ugv_core.Core.EStopLatch.{latched}
use arcraven_ugv_core.Config.Vehicle.{Vehicle}
use arcraven_ugv_core.Config.Boot.{ThreadName, control_thread}
use arcraven_ugv_core.Config.Handlers.{register_default_command_handlers}
use arcraven_ugv_core.Config.Ticks.Control.{HasName, summary, effect, control_round-effect}
use arcraven_ugv_core.Config.Ticks.{on_processed, max_n, control_round}
use arcraven_ugv_core.Config.Runtime.{
  Phase, test, body, batch, Runtime, is_running, skips_batch, begins_batch, serves, finds_none,
  ends_batch, ticks, Reach, here, next,
}

process_some-none :
    (now_ns n : ℕ) (r r' : CommandRouter Vehicle) (v v' : Vehicle)
    → process_one now_ns r v ≡ (none, r', v')
    → process_some now_ns (suc n) on_processed r v ≡ (r', v')
unfolding process_some
process_some-none now_ns n r r' v v' e = rw (process_some, e) (ap (λ out. (out.1, out.2)) e)

process_some-some :
    (now_ns n : ℕ) (r r' : CommandRouter Vehicle) (v v' : Vehicle)
    (c : CommandEnvelope × CommandResult)
    → process_one now_ns r v ≡ (some c, r', v')
    → process_some now_ns (suc n) on_processed r v
      ≡ process_some now_ns n on_processed r' (on_processed c v')
unfolding process_some
process_some-some now_ns n r r' v v' c e =
    rw (process_some, e)
      (ap (λ out. process_some now_ns n on_processed out.1 (on_processed c out.2)) e)

module _ {D : Type 0} (ulong : ℕ) (show : D → Bytes) where
  -- `s` with another router and vehicle, and other phases.
  abbrev with_round : Runtime D → CommandRouter Vehicle × Vehicle → (ThreadName → Phase) → Runtime D
  with_round s (r, v) f = record s {
    core = record s.core { cmd_router = r; vehicle = v };
    phase = f;
  }

  -- The control thread has done `out` and stands before the test again.
  abbrev pub Rounds : Runtime D → Runtime D → CommandRouter Vehicle × Vehicle → Type 0
  Rounds start s out =
      (f : ThreadName → Phase) × Reach ulong show start (with_round s out f)
      × (f control_thread ≡ test)

  batch-Reach :
      (now_ns n : ℕ) (first s : Runtime D)
      → is_running s.main ≡ true
      → s.phase control_thread ≡ batch n
      → Reach ulong show first s
      → Rounds first s (process_some now_ns n on_processed s.core.cmd_router s.core.vehicle)
  unfolding process_some
  batch-Reach now_ns zero first s run p r = (_, next r (ticks run (ends_batch p)), refl)
  batch-Reach now_ns (suc n) first s run p r =
      by_answer (process_one now_ns s.core.cmd_router s.core.vehicle) refl
        (λ t. batch-Reach now_ns n first t)
    where
      by_answer :
          (out : Option (CommandEnvelope × CommandResult) × CommandRouter Vehicle × Vehicle)
          → process_one now_ns s.core.cmd_router s.core.vehicle ≡ out
          → ((t : Runtime D)
              → is_running t.main ≡ true
              → t.phase control_thread ≡ batch n
              → Reach ulong show first t
              → Rounds first t
                  (process_some now_ns n on_processed t.core.cmd_router t.core.vehicle))
          → Rounds first s
              (process_some now_ns (suc n) on_processed s.core.cmd_router s.core.vehicle)
      by_answer (none, r', v') e rest =
          rw (process_some-none now_ns n _ r' _ v' e)
            (_, next r (ticks run (finds_none now_ns n r' v' p e)), refl)
      by_answer (some c, r', v') e rest =
          rw (process_some-some now_ns n _ r' _ v' c e)
            (rest _ run refl (next r (ticks run (serves now_ns n c r' v' p e))))

  control_round-Reach :
      (now_ns : ℕ) (s : Runtime D)
      → is_running s.main ≡ true
      → s.phase control_thread ≡ body
      → Rounds s s (control_round now_ns s.core.cmd_router s.core.vehicle)
  unfolding control_round
  control_round-Reach now_ns s run p = elim (Bool-cases (latched s.core.vehicle.estop)) [
    | inl held ↦ rw held (_, next here (ticks run (skips_batch p held)), refl)
    | inr free ↦
        rw free
          (batch-Reach now_ns max_n s _ run refl (next here (ticks run (begins_batch p free))))
  ]

  -- In a running system with the default handlers and a logger whose fatal calls come back, the stop
  -- not latched and only named commands queued, the control thread before its loop's body can step to
  -- the next test of the stop flag, at any one time, such that the first eight commands have left
  -- the queue, and the stop flag, the latch, the drives and the remembered authority are what these
  -- commands mean to make of them, one after the other.
  pub batch-Reach-effect :
      (lockout : RejectReason) (r0 : CommandRouter Vehicle) (now_ns : ℕ) (s : Runtime D)
      → is_running s.main ≡ true
      → s.phase control_thread ≡ body
      → latched s.core.vehicle.estop ≡ false
      → s.core.cmd_router.handlers ≡ (register_default_command_handlers lockout r0).handlers
      → All HasName s.core.cmd_router.q
      → (u : Runtime D) × Reach ulong show s u
        × (u.phase control_thread ≡ test)
        × (u.core.cmd_router.q ≡ drop 8 s.core.cmd_router.q)
        × (summary u.core.vehicle
            ≡ foldl (effect now_ns) (summary s.core.vehicle) (take 8 s.core.cmd_router.q))
  batch-Reach-effect lockout r0 now_ns s run p free defaults named =
      let (f, reached, at_test) = control_round-Reach now_ns s run p in
      let (router, meant) =
        (control_round-effect lockout r0 s.core.cmd_router now_ns s.core.vehicle defaults named).1
          free in
      (_, reached, at_test, ap (λ r. r.q) router, meant)
