-- ===== src/Config/System/Kept.antt =====
-- What a step leaves as it is, or moves one way only.
use mathlib.Core.Path.{subst}
use arcraven_ugv_core.Common.{
  ℕ, ◌≡◌, refl, ap, sym, ◌∙◌, true, false, List, [], ◌∷◌, none, some, Bytes, arith, All,
}
use arcraven_ugv_core.Command.Types.{CommandEnvelope, CommandResult}
use arcraven_ugv_core.Command.Router.{CommandHandler, CommandRouter, handler_of, take_front}
use arcraven_ugv_core.Core.EStopLatch.{exchange, store_reason, latched}
use arcraven_ugv_core.Core.StopController.{request_stop, stop_requested}
use arcraven_ugv_core.Subsystems.Stubs.{estop, disable, enabled}
use arcraven_ugv_core.Config.Vehicle.{Vehicle}
use arcraven_ugv_core.Config.Ticks.Safe.{control_start-Safely, sensor_round-Safely, submit-handlers}
use arcraven_ugv_core.Config.Handlers.Safe.{
  Safely, IsSafe, SafeEntry, HasSafe, handler_of-Safe, execute-Safely,
}
use arcraven_ugv_core.Config.Runtime.Safety.{end_shutdown-vehicle}
use arcraven_ugv_core.Config.System.{Task, Pc, Shared, stopped, remember, publish, client_write}
use arcraven_ugv_core.Config.System.Moves.{
  Move, cuts, asks, prepares, serves, latches, stores, stops, remembers, publishes, senses, reads,
  submits, requests, halts, disables, finishes, System, Step, moves, joins, writes, Reach, here,
  next, with_latch_exchanged, with_reason, with_estop, with_drives_off,
}

-- From `v` to `w` no stop is forgotten, no latch is released and no drive is switched on.
pub record Kept (v w : Vehicle) : Type 0 where
  pub stop_kept : stop_requested v.stop ≡ true → stop_requested w.stop ≡ true
  pub latch_kept : latched v.estop ≡ true → latched w.estop ≡ true
  pub drives_off : enabled v.drives ≡ false → enabled w.drives ≡ false

pub Kept-refl : (v : Vehicle) → Kept v v
Kept-refl v = record { stop_kept = λ h. h; latch_kept = λ h. h; drives_off = λ h. h }

pub Kept-trans : {u v w : Vehicle} → Kept u v → Kept v w → Kept u w
Kept-trans a b = record {
  stop_kept = λ h. b.stop_kept (a.stop_kept h);
  latch_kept = λ h. b.latch_kept (a.latch_kept h);
  drives_off = λ h. b.drives_off (a.drives_off h);
}

Safely-Kept : {v w : Vehicle} → Safely v w → Kept v w
Safely-Kept s = record {
  stop_kept = s.stop_kept;
  latch_kept = s.latch_kept;
  drives_off = s.drives_off;
}

-- The command at the front comes with its handler, and the handlers stay.
pub take_front-handlers :
    (r r' : CommandRouter Vehicle) (c : CommandEnvelope) (h : CommandHandler Vehicle)
    → take_front r ≡ some (c, h, r')
    → (handler_of c.command r.handlers ≡ h) × (r'.handlers ≡ r.handlers)
unfolding take_front
take_front-handlers r r' c h = by_queue r.q
  where
    by_queue :
        (cs : List CommandEnvelope)
        → take_front (record r { q = cs }) ≡ some (c, h, r')
        → (handler_of c.command r.handlers ≡ h) × (r'.handlers ≡ r.handlers)
    by_queue [] e = absurd (ground (arith, e))
    by_queue (d ∷ ds) e =
        let command_is : d ≡ c = ap (λ o. elim o [ none ↦ d | some out ↦ out.0 ]) e in
        (
          subst (λ x. handler_of x.command r.handlers ≡ h) command_is
              (ap (λ o. elim o [ none ↦ h | some out ↦ out.1 ]) e),
          sym (ap (λ o. elim o [ none ↦ r.handlers | some out ↦ out.2.handlers ]) e),
        )

pub take_front-Safe :
    (r r' : CommandRouter Vehicle) (c : CommandEnvelope) (h : CommandHandler Vehicle)
    → take_front r ≡ some (c, h, r')
    → HasSafe r
    → IsSafe h × HasSafe r'
take_front-Safe r r' c h e q =
    let (found, same) = take_front-handlers r r' c h e in
    (
      subst IsSafe found (handler_of-Safe c.command r.handlers q),
      subst (All SafeEntry) (sym same) q,
    )

-- What leaves the stop, the latch and the drives alone.
same-Kept : (v w : Vehicle) → w.stop ≡ v.stop → w.estop ≡ v.estop → w.drives ≡ v.drives → Kept v w
same-Kept v w es el ed = record {
  stop_kept = λ h. ground (arith, h, es);
  latch_kept = λ h. ground (arith, h, el);
  drives_off = λ h. ground (arith, h, ed);
}

stopped-Kept : (v : Vehicle) → Kept v (stopped v)
unfolding request_stop stop_requested
stopped-Kept v = record { stop_kept = λ h. refl; latch_kept = λ h. h; drives_off = λ h. h }

with_estop-Kept : (v : Vehicle) → Kept v (with_estop v)
unfolding estop enabled
with_estop-Kept v = record { stop_kept = λ h. h; latch_kept = λ h. h; drives_off = λ h. refl }

with_drives_off-Kept : (v : Vehicle) → Kept v (with_drives_off v)
unfolding disable enabled
with_drives_off-Kept v = record { stop_kept = λ h. h; latch_kept = λ h. h; drives_off = λ h. refl }

pub with_reason-Kept : (v : Vehicle) → Kept v (with_reason v)
unfolding store_reason latched
with_reason-Kept v = record { stop_kept = λ h. h; latch_kept = λ h. h; drives_off = λ h. h }

with_latch_exchanged-Kept : (v : Vehicle) → Kept v (with_latch_exchanged v)
unfolding exchange latched
with_latch_exchanged-Kept v = record {
  stop_kept = λ h. h;
  latch_kept = λ h. ground (arith, h);
  drives_off = λ h. h;
}

remember-Kept : (p : CommandEnvelope × CommandResult) (v : Vehicle) → Kept v (remember p v)
unfolding remember
remember-Kept p v = same-Kept v _ refl refl refl

publish-Kept : (p : CommandEnvelope × CommandResult) (v : Vehicle) → Kept v (publish p v)
unfolding publish
publish-Kept p v = same-Kept v _ refl refl refl

pub client_write-Kept : (text : Bytes) (v : Vehicle) → Kept v (client_write text v)
unfolding client_write
client_write-Kept text v = same-Kept v _ refl refl refl

module _ {D : Type 0} (ulong : ℕ) (show : D → Bytes) where
  pub Move-handlers :
      {m m' : Shared D} {t : Task} {p p' : Pc}
      → Move ulong show m t p m' p'
      → m'.core.cmd_router.handlers ≡ m.core.cmd_router.handlers
  Move-handlers {m = m} (serves now_ns c h r res v e w x) =
      (take_front-handlers m.core.cmd_router r c h e).1
  Move-handlers {m = m} (latches now_ns c h r e w) =
      (take_front-handlers m.core.cmd_router r c h e).1
  Move-handlers {m = m} (submits {env = env}) = submit-handlers env m.core.cmd_router
  Move-handlers {m = m} (finishes env result core e) =
      ap (λ c. c.cmd_router.handlers) (sym (ap (λ out. out.1) e))
      ∙ ap (λ r. r.handlers) (end_shutdown-vehicle env m.core).1
  Move-handlers _ = refl

  -- A move of a task, with safe handlers.
  pub Move-Kept :
      {m m' : Shared D} {t : Task} {p p' : Pc}
      → Move ulong show m t p m' p'
      → HasSafe m.core.cmd_router
      → Kept m.core.vehicle m'.core.vehicle × HasSafe m'.core.cmd_router
  Move-Kept (cuts e) q = (with_estop-Kept _, q)
  Move-Kept asks q = (stopped-Kept _, q)
  Move-Kept prepares q = (Safely-Kept (control_start-Safely _), q)
  Move-Kept {m = m} (serves now_ns c h r res v e w x) q =
      let (hs, q') = take_front-Safe m.core.cmd_router r c h e q in
      (
        Safely-Kept (
            subst (λ out. Safely m.core.vehicle out.1) x
              (execute-Safely now_ns c h m.core.vehicle hs)),
        q',
      )
  Move-Kept {m = m} (latches now_ns c h r e w) q =
      (with_latch_exchanged-Kept _, (take_front-Safe m.core.cmd_router r c h e q).1)
  Move-Kept stores q = (with_reason-Kept _, q)
  Move-Kept stops q = (stopped-Kept _, q)
  Move-Kept (remembers {p = p}) q = (remember-Kept p _, q)
  Move-Kept (publishes {p = p}) q = (publish-Kept p _, q)
  Move-Kept {m = m} (senses now_ns frame joints v e) q = (
    Safely-Kept (
        subst (λ out. Safely m.core.vehicle out.2) e
          (sensor_round-Safely show now_ns m.frame m.joints m.core.vehicle)),
    q,
  )
  Move-Kept reads q = (same-Kept _ _ refl refl refl, q)
  Move-Kept {m = m} (submits {env = env}) q =
      (Kept-refl _, rw (submit-handlers env m.core.cmd_router) q)
  Move-Kept requests q = (stopped-Kept _, q)
  Move-Kept halts q = (with_estop-Kept _, q)
  Move-Kept (disables e) q = (with_drives_off-Kept _, q)
  Move-Kept {m = m} (finishes env result core e) q =
      let (same_v, same_r, _) = end_shutdown-vehicle env m.core in
      let core_is = ap (λ out. out.1) e in
      (
        subst (Kept m.core.vehicle) (sym same_v ∙ ap (λ c. c.vehicle) core_is)
            (Kept-refl m.core.vehicle),
        subst HasSafe (sym same_r ∙ ap (λ c. c.cmd_router) core_is) q,
      )
  Move-Kept _ q = (Kept-refl _, q)

  pub Step-Kept :
      {s u : System D}
      → Step ulong show s u
      → HasSafe s.mem.core.cmd_router
      → Kept s.mem.core.vehicle u.mem.core.vehicle × HasSafe u.mem.core.cmd_router
  Step-Kept (moves alive mv) q = Move-Kept mv q
  Step-Kept (joins e all) q = (Kept-refl _, q)
  Step-Kept (writes text) q = (client_write-Kept text _, q)

  pub Reach-Kept :
      {s u : System D}
      → Reach ulong show s u
      → HasSafe s.mem.core.cmd_router
      → Kept s.mem.core.vehicle u.mem.core.vehicle × HasSafe u.mem.core.cmd_router
  Reach-Kept here q = (Kept-refl _, q)
  Reach-Kept (next r st) q =
      let (before, q') = Reach-Kept r q in
      let (after, q'') = Step-Kept st q' in (Kept-trans before after, q'')
