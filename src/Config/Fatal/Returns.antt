-- ===== src/Config/Fatal/Returns.antt =====
-- When an emergency stop gets past its fatal log lines, and what it has stored when it does not.
use arcraven_ugv_core.Common.{
  ◌≡◌, refl, ap, ◌⊎◌, inl, inr, Bool, true, false, ◌&&◌, not, Option, none, some, ◌++◌, Bytes,
  bytes, arith,
}
use arcraven_ugv_core.Command.Types.{CommandEnvelope}
use arcraven_ugv_core.Core.EStopLatch.{
  EStopLatch, exchange, store_reason, trigger, latched, reason_string,
}
use arcraven_ugv_core.Subsystems.Stubs.{estop}
use arcraven_ugv_core.Utils.Logger.{fatal, Source, Logger, log}
use arcraven_ugv_core.Utils.Logger.Lines.{log-none_iff}
use arcraven_ugv_core.Config.Vehicle.{Vehicle}
use arcraven_ugv_core.Config.Handlers.{on_emergency_stop}
use arcraven_ugv_core.Config.Ticks.{estop_round}
use arcraven_ugv_core.Config.Fatal.{
  trigger_logged, estop_logged, after_trigger, on_emergency_stop_logged, estop_round_logged,
}

module _ (stamp tid : Bytes) where
  -- A fatal call hangs with flushing on, and comes back without.
  by_flushing :
      (msg : Bytes) (source : Source) (l : Logger)
      → ((l.cfg.flush_always ≡ true) × (log stamp tid fatal msg source l ≡ none))
        ⊎ ((l.cfg.flush_always ≡ false)
            × ((l' : Logger) × (log stamp tid fatal msg source l ≡ some l')))
  by_flushing msg source l =
      by_answer l.cfg.flush_always refl (log stamp tid fatal msg source l) refl
    where
      by_answer :
          (f : Bool)
          → l.cfg.flush_always ≡ f
          → (o : Option Logger) → log stamp tid fatal msg source l ≡ o
          → ((l.cfg.flush_always ≡ true) × (log stamp tid fatal msg source l ≡ none))
            ⊎ ((l.cfg.flush_always ≡ false)
                × ((l' : Logger) × (log stamp tid fatal msg source l ≡ some l')))
      by_answer true h o e = inl (h, (log-none_iff stamp tid msg fatal source l).1 (refl, h))
      by_answer false h none e =
          absurd (ground (arith, (log-none_iff stamp tid msg fatal source l).0 e, h))
      by_answer false h (some l') e = inr (h, (l', e))

  trigger_logged-late :
      (r : Bytes) (e : EStopLatch) (l : Logger)
      → latched e ≡ true
      → (trigger_logged stamp tid r e l ≡ (e, some l)) × (trigger r e ≡ e)
  unfolding trigger_logged trigger exchange latched
  trigger_logged-late r e l h = (rw h refl, rw h refl)

  trigger_logged-first :
      (r : Bytes) (e : EStopLatch) (l : Logger)
      → latched e ≡ false
      → ((l.cfg.flush_always ≡ true) × (trigger_logged stamp tid r e l ≡ (trigger r e, none)))
        ⊎ ((l.cfg.flush_always ≡ false)
            × ((l' : Logger) × (trigger_logged stamp tid r e l ≡ (trigger r e, some l'))))
  unfolding trigger_logged trigger exchange latched
  trigger_logged-first r e l h = elim (by_flushing msg (some (bytes "EStopLatch.hpp"), 20) l) [
    | inl (f, q) ↦ inl (f, rw h (rw q refl))
    | inr (f, (l', q)) ↦ inr (f, (l', rw h (rw q refl)))
  ]
    where
      msg : Bytes
      msg =
          bytes "E-STOP LATCHED: "
          ++ reason_string (store_reason r (record e { is_latched = true }))

  -- An EmergencyStop with flushing on does not come back from its handler, unless the stop was
  -- latched before: the stop is then latched, with its reason, and not asked for. In every other case
  -- it does what the handler does without its log line.
  on_emergency_stop_logged_lem :
      (c : CommandEnvelope) (v : Vehicle) (l : Logger)
      → (((not (latched v.estop) && l.cfg.flush_always) ≡ true)
          × (on_emergency_stop_logged stamp tid c v l
              ≡ (record v { estop = trigger (bytes "EmergencyStop command") v.estop }, none)))
        ⊎ (((not (latched v.estop) && l.cfg.flush_always) ≡ false)
            × ((l' : Logger) × (on_emergency_stop_logged stamp tid c v l
                  ≡ ((on_emergency_stop c v).1, some ((on_emergency_stop c v).0, l')))))
  unfolding on_emergency_stop_logged after_trigger on_emergency_stop
  on_emergency_stop_logged_lem c v l = by_latch (latched v.estop) refl
    where
      by_latch :
          (h : Bool)
          → latched v.estop ≡ h
          → (((not (latched v.estop) && l.cfg.flush_always) ≡ true)
              × (on_emergency_stop_logged stamp tid c v l
                  ≡ (record v { estop = trigger (bytes "EmergencyStop command") v.estop }, none)))
            ⊎ (((not (latched v.estop) && l.cfg.flush_always) ≡ false)
                × ((l' : Logger) × (on_emergency_stop_logged stamp tid c v l
                      ≡ ((on_emergency_stop c v).1, some ((on_emergency_stop c v).0, l')))))
      by_latch true h =
          let (late, same) = trigger_logged-late (bytes "EmergencyStop command") v.estop l h in
          inr (rw h refl, (l, rw same (ap (after_trigger stamp tid v) late)))
      by_latch false h = elim (trigger_logged-first (bytes "EmergencyStop command") v.estop l h) [
        | inl (f, q) ↦ inl (rw (h, f) refl, ap (after_trigger stamp tid v) q)
        | inr (f, (l', q)) ↦ inr (rw (h, f) refl, (l', ap (after_trigger stamp tid v) q))
      ]

  -- A round of the emergency-stop thread with the stop latched and flushing on does not come back
  -- either: the drives are then off, and the stop is not asked for.
  estop_round_logged_lem :
      (v : Vehicle) (l : Logger)
      → (((latched v.estop && l.cfg.flush_always) ≡ true)
          × (estop_round_logged stamp tid v l ≡ (record v { drives = estop v.drives }, none)))
        ⊎ (((latched v.estop && l.cfg.flush_always) ≡ false)
            × ((l' : Logger) × (estop_round_logged stamp tid v l ≡ (estop_round v, some l'))))
  unfolding estop_round_logged estop_logged estop_round
  estop_round_logged_lem v l = by_latch (latched v.estop) refl
    where
      by_latch :
          (h : Bool)
          → latched v.estop ≡ h
          → (((latched v.estop && l.cfg.flush_always) ≡ true)
              × (estop_round_logged stamp tid v l ≡ (record v { drives = estop v.drives }, none)))
            ⊎ (((latched v.estop && l.cfg.flush_always) ≡ false)
                × ((l' : Logger) × (estop_round_logged stamp tid v l ≡ (estop_round v, some l'))))
      by_latch false h = inr (rw h refl, (l, rw h refl))
      by_latch true h =
          elim (by_flushing (bytes "DriveSystem: ESTOP (stub) -> outputs disabled")
            (some (bytes "Stubs.hpp"), 33) l) [
              | inl (f, q) ↦ inl (rw (h, f) refl, rw (h, q) refl)
              | inr (f, (l', q)) ↦ inr (rw (h, f) refl, (l', rw (h, q) refl))
            ]
