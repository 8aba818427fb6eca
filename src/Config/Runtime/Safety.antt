-- ===== src/Config/Runtime/Safety.antt =====
-- What holds of the running system, whatever the threads do and in whatever order, with a logger
-- whose fatal calls come back.
use mathlib.Core.Path.{subst}
use arcraven_ugv_core.Common.{
  ℕ, ◌≡◌, refl, Bool, true, false, [], Bytes, arith, ◌⊎◌, inl, inr, ap, sym, ◌∙◌,
}
use arcraven_ugv_core.Models.RejectReason.{RejectReason}
use arcraven_ugv_core.Command.Router.{make}
use arcraven_ugv_core.Core.EStopLatch.{latched}
use arcraven_ugv_core.Core.StopController.{stop_requested}
use arcraven_ugv_core.Core.StateStore.{Disk, SaveFaults, SaveResult, returned, thrown}
use arcraven_ugv_core.Subsystems.Interfaces.{SensorFrame}
use arcraven_ugv_core.Subsystems.Stubs.{enabled}
use arcraven_ugv_core.Config.Vehicle.{Vehicle}
use arcraven_ugv_core.Config.Boot.{ThreadName, UgvCore, stop_drives, end_shutdown}
use arcraven_ugv_core.Config.Boot.Outcome.{IsUp}
use arcraven_ugv_core.Config.Handlers.Safe.{
  Safely, Safely-refl, Safely-trans, HasSafe, process_one-Safely,
  register_default_command_handlers-Safe,
}
use arcraven_ugv_core.Config.Ticks.Safe.{
  estop_round-Safely, control_start-Safely, on_processed-Safely, sensor_round-Safely,
  io_round-Safely, stop_drives-Safely, stop_drives-off,
}
use arcraven_ugv_core.Config.Runtime.{
  Phase, ended, MainPhase, waiting, joining, has_returned, died, Runtime, is_running, with_vehicle,
  after_persist, after_shutdown, Tick, enters, leaves, checks_estop, starts_control, skips_batch,
  begins_batch, serves, finds_none, ends_batch, senses, pumps, persists, Step, ticks, stops,
  finishes, Reach, here, next, start,
}

-- Past its wait, `run` has asked for the stop and switched the drives off; and where it has
-- returned, it returned 0 with every thread ended.
abbrev pub Halted : MainPhase → Vehicle → (ThreadName → Phase) → Type 0
Halted waiting v f = Unit
Halted joining v f = (stop_requested v.stop ≡ true) × (enabled v.drives ≡ false)
Halted (has_returned code) v f =
    (code ≡ 0)
    × (stop_requested v.stop ≡ true)
    × (enabled v.drives ≡ false)
    × ((t : ThreadName) → f t ≡ ended)
Halted died v f = Unit

pub end_shutdown-vehicle :
    (env : SaveFaults) (core : UgvCore)
    → let core' = (end_shutdown env core).1 in
      (core'.vehicle ≡ core.vehicle) × (core'.cmd_router ≡ core.cmd_router) × (core'.threads ≡ [])
unfolding end_shutdown
end_shutdown-vehicle env core = (refl, refl, refl)

module _ {D : Type 0} (ulong : ℕ) (show : D → Bytes) where
  pub record Inv (s : Runtime D) : Type 0 where
    pub safe : HasSafe s.core.cmd_router
    pub latch_stops :
        latched s.core.vehicle.estop ≡ true → stop_requested s.core.vehicle.stop ≡ true
    pub halted : Halted s.main s.core.vehicle s.phase

  Tick-Safely :
      {s u : Runtime D}
      → Tick ulong show s u
      → HasSafe s.core.cmd_router
      → Safely s.core.vehicle u.core.vehicle × HasSafe u.core.cmd_router
  Tick-Safely (enters t p e) q = (Safely-refl _, q)
  Tick-Safely (leaves t p e) q = (Safely-refl _, q)
  Tick-Safely (checks_estop p) q = (estop_round-Safely _, q)
  Tick-Safely (starts_control p) q = (control_start-Safely _, q)
  Tick-Safely (skips_batch p e) q = (Safely-refl _, q)
  Tick-Safely (begins_batch p e) q = (Safely-refl _, q)
  Tick-Safely {s = s} (serves now_ns n c r v p e) q =
      let (sf, q') =
        subst (λ out. Safely s.core.vehicle out.2 × HasSafe out.1) e
          (process_one-Safely now_ns s.core.cmd_router s.core.vehicle q) in
      (Safely-trans sf (on_processed-Safely c v), q')
  Tick-Safely {s = s} (finds_none now_ns n r v p e) q =
      subst (λ out. Safely s.core.vehicle out.2 × HasSafe out.1) e
        (process_one-Safely now_ns s.core.cmd_router s.core.vehicle q)
  Tick-Safely (ends_batch p) q = (Safely-refl _, q)
  Tick-Safely {s = s} (senses now_ns frame joints v p e) q = (
    subst (λ out. Safely s.core.vehicle out.2) e
        (sensor_round-Safely show now_ns s.frame s.joints s.core.vehicle),
    q,
  )
  Tick-Safely {s = s} (pumps r v p e) q =
      subst (λ out. Safely s.core.vehicle out.1 × HasSafe out.0) e
        (io_round-Safely ulong s.core.cmd_router s.core.vehicle q)
  Tick-Safely (persists env result disk p e) q = (Safely-refl _, q)

  after_persist-kept :
      (result : SaveResult) (main : MainPhase)
      → (after_persist result main ≡ main) ⊎ (after_persist result main ≡ died)
  after_persist-kept (returned ok) main = inl refl
  after_persist-kept thrown main = inr refl

  -- A thread's step leaves `run` where it is, or ends the process.
  pub Tick-main : {s u : Runtime D} → Tick ulong show s u → (u.main ≡ s.main) ⊎ (u.main ≡ died)
  Tick-main (persists env result disk p e) = after_persist-kept result _
  Tick-main _ = inl refl

  tick-Halted :
      {v w : Vehicle} (f g : ThreadName → Phase) (main : MainPhase)
      → is_running main ≡ true
      → Safely v w
      → Halted main v f
      → Halted main w g
  tick-Halted f g waiting run sf h = tt
  tick-Halted f g joining run sf h = (sf.stop_kept h.0, sf.drives_off h.1)
  tick-Halted f g (has_returned code) run sf h = absurd (ground (arith, run))
  tick-Halted f g died run sf h = tt

  Tick-Inv : {s u : Runtime D} → is_running s.main ≡ true → Tick ulong show s u → Inv s → Inv u
  Tick-Inv {s} {u} run t i =
      let (sf, q) = Tick-Safely t i.safe in
      record {
        safe = q;
        latch_stops = sf.latch_stops i.latch_stops;
        halted = elim (Tick-main t) [
          | inl same ↦ rw same (tick-Halted s.phase u.phase s.main run sf i.halted)
          | inr dead ↦ rw dead tt
        ];
      }

  stops-Inv :
      {s : Runtime D}
      → Inv s
      → Inv (record s { core = with_vehicle (stop_drives s.core.vehicle) s.core; main = joining })
  stops-Inv {s} i = record {
    safe = i.safe;
    latch_stops = λ e. (stop_drives-off s.core.vehicle).0;
    halted = stop_drives-off s.core.vehicle;
  }

  finishes-Inv :
      {s : Runtime D} (env : SaveFaults) (result : SaveResult) (core : UgvCore)
      → s.main ≡ joining
      → ((t : ThreadName) → s.phase t ≡ ended)
      → end_shutdown env s.core ≡ (result, core)
      → Inv s
      → Inv (record s { core = core; main = after_shutdown result })
  finishes-Inv {s} env result core m all e i =
      let h : Halted joining s.core.vehicle s.phase =
        subst (λ m. Halted m s.core.vehicle s.phase) m i.halted in
      let (same_v, same_r, _) = end_shutdown-vehicle env s.core in
      let core_is = ap (λ out. out.1) e in
      let v_is = ap (λ c. c.vehicle) (sym core_is) ∙ same_v in
      let r_is = ap (λ c. c.cmd_router) (sym core_is) ∙ same_r in
      record {
        safe = rw r_is i.safe;
        latch_stops = rw v_is i.latch_stops;
        halted = rw v_is (by_result result h);
      }
    where
      by_result :
          (result : SaveResult)
          → Halted joining s.core.vehicle s.phase
          → Halted (after_shutdown result) s.core.vehicle s.phase
      by_result (returned ok) h = (refl, h.0, h.1, all)
      by_result thrown h = tt

  Step-Inv : {s u : Runtime D} → Step ulong show s u → Inv s → Inv u
  Step-Inv (ticks run t) i = Tick-Inv run t i
  Step-Inv (stops m e) i = stops-Inv i
  Step-Inv (finishes env result core m all e) i = finishes-Inv env result core m all e i

  pub Step-Safely :
      {s u : Runtime D} → Step ulong show s u → Inv s → Safely s.core.vehicle u.core.vehicle
  Step-Safely (ticks run t) i = (Tick-Safely t i.safe).0
  Step-Safely (stops m e) i = stop_drives-Safely _
  Step-Safely {s} (finishes env result core m all e) i =
      let v_is =
        ap (λ c. c.vehicle) (sym (ap (λ out. out.1) e)) ∙ (end_shutdown-vehicle env s.core).0 in
      rw v_is (Safely-refl s.core.vehicle)

  pub Reach-Inv : {s u : Runtime D} → Reach ulong show s u → Inv s → Inv u
  Reach-Inv here i = i
  Reach-Inv (next r st) i = Step-Inv st (Reach-Inv r i)

  pub Reach-Safely :
      {s u : Runtime D} → Reach ulong show s u → Inv s → Safely s.core.vehicle u.core.vehicle
  Reach-Safely here i = Safely-refl _
  Reach-Safely (next r st) i = Safely-trans (Reach-Safely r i) (Step-Safely st (Reach-Inv r i))

  -- The system as the boot leaves it.
  module _ (lockout : RejectReason) (opens : Bool) (disk : Disk) (frame : SensorFrame)
      (core : UgvCore) (up : IsUp lockout opens disk core) where
    pub up-Inv : Inv (start frame core)
    unfolding make
    up-Inv = record {
      safe = rw up.routed (register_default_command_handlers-Safe lockout _ tt);
      latch_stops = λ e. absurd (ground (arith, e, up.unlatched));
      halted = tt;
    }

    -- With a logger whose fatal calls come back: whenever the emergency stop is latched, the stop of
    -- the process is asked for.
    pub latched-stop_requested :
        {s : Runtime D}
        → Reach ulong show (start frame core) s
        → latched s.core.vehicle.estop ≡ true
        → stop_requested s.core.vehicle.stop ≡ true
    latched-stop_requested r e = (Reach-Inv r up-Inv).latch_stops e

    -- With such a logger, from any state of the system on: a stop asked for stays asked for, a latched emergency stop
    -- stays latched, and drives that are off stay off.
    pub never_undone :
        {s u : Runtime D}
        → Reach ulong show (start frame core) s
        → Reach ulong show s u
        → Safely s.core.vehicle u.core.vehicle
    never_undone r later = Reach-Safely later (Reach-Inv r up-Inv)

    -- With such a logger, from the joins on, the stop is asked for and the drives are off; and `run` returns only 0, when
    -- every thread has ended.
    pub run-Halted :
        {s : Runtime D}
        → Reach ulong show (start frame core) s
        → Halted s.main s.core.vehicle s.phase
    run-Halted r = (Reach-Inv r up-Inv).halted
