-- ===== src/Config/System/Places.antt =====
-- What each place in the code can count on, whatever the logger does.
use arcraven_ugv_core.Common.{
  ℕ, ◌≡◌, inl, inr, refl, true, false, List, Option, none, some, Bytes, arith, Bool-cases,
}
use arcraven_ugv_core.Command.Types.{CommandEnvelope, CommandResult}
use arcraven_ugv_core.Core.EStopLatch.{exchange, latched}
use arcraven_ugv_core.Core.StopController.{request_stop, stop_requested}
use arcraven_ugv_core.Core.StateStore.{SaveResult, returned, thrown}
use arcraven_ugv_core.Subsystems.Stubs.{estop, disable, enabled}
use arcraven_ugv_core.Config.Vehicle.{Vehicle}
use arcraven_ugv_core.Config.Handlers.Safe.{HasSafe}
use arcraven_ugv_core.Config.System.{
  Task, Pc, says, stuck, requesting, storing, stopping, shutdown, choosing, halting, joining,
  saving, has_returned, Shared, executed, is_stop_done, says_warning, submits_parsed, stopped,
}
use arcraven_ugv_core.Config.System.Moves.{
  Move, ignores, logs, locks, cuts, serves, latches, stores, reads, persists, wakes, requests,
  warns, halts, disables, finishes, after_persist, after_shutdown, with_latch_exchanged, with_estop,
  with_drives_off,
}
use arcraven_ugv_core.Config.System.Kept.{Kept, with_reason-Kept, Move-Kept}

-- What a place in the code can count on, also across the log line that comes before it. From
-- `run`'s choice on, the stop is asked for; from its joins on, the drives are off as well, and what
-- it returns is 0. Behind the fatal line of the emergency-stop thread, the stop is latched and the
-- drives are off.
abbrev pub Holds : Pc → Vehicle → Type 0
Holds (says lvl msg k) v = Holds k v
Holds (stuck k) v = Holds k v
Holds requesting v = (latched v.estop ≡ true) × (enabled v.drives ≡ false)
Holds (storing n c) v = latched v.estop ≡ true
Holds (stopping n c) v = latched v.estop ≡ true
Holds shutdown v = stop_requested v.stop ≡ true
Holds choosing v = stop_requested v.stop ≡ true
Holds halting v = stop_requested v.stop ≡ true
Holds joining v = (stop_requested v.stop ≡ true) × (enabled v.drives ≡ false)
Holds saving v = (stop_requested v.stop ≡ true) × (enabled v.drives ≡ false)
Holds (has_returned code) v =
    (code ≡ 0) × (stop_requested v.stop ≡ true) × (enabled v.drives ≡ false)
Holds _ v = Unit

pub Holds-Kept : (p : Pc) {v w : Vehicle} → Kept v w → Holds p v → Holds p w
Holds-Kept (says lvl msg k) s h = Holds-Kept k s h
Holds-Kept (stuck k) s h = Holds-Kept k s h
Holds-Kept requesting s h = (s.latch_kept h.0, s.drives_off h.1)
Holds-Kept (storing n c) s h = s.latch_kept h
Holds-Kept (stopping n c) s h = s.latch_kept h
Holds-Kept shutdown s h = s.stop_kept h
Holds-Kept choosing s h = s.stop_kept h
Holds-Kept halting s h = s.stop_kept h
Holds-Kept joining s h = (s.stop_kept h.0, s.drives_off h.1)
Holds-Kept saving s h = (s.stop_kept h.0, s.drives_off h.1)
Holds-Kept (has_returned code) s h = (h.0, s.stop_kept h.1, s.drives_off h.2)
Holds-Kept _ s h = tt

executed-Holds :
    (n : ℕ) (c : CommandEnvelope) (res : CommandResult) (v : Vehicle) → Holds (executed n c res) v
executed-Holds n c res v = elim (Bool-cases (is_stop_done c res)) [
  | inl e ↦ rw e tt
  | inr e ↦ rw e tt
]

read-Holds :
    (w : Option Bytes) (o : Option CommandEnvelope) (lines : List Bytes) (v : Vehicle)
    → Holds (says_warning w (submits_parsed o lines)) v
read-Holds none none lines v = tt
read-Holds none (some env) lines v = tt
read-Holds (some msg) none lines v = tt
read-Holds (some msg) (some env) lines v = tt

after_persist-Holds : (result : SaveResult) (v : Vehicle) → Holds (after_persist result) v
after_persist-Holds (returned ok) v = tt
after_persist-Holds thrown v = tt

after_shutdown-Holds :
    (result : SaveResult) (v : Vehicle) → Holds saving v → Holds (after_shutdown result) v
after_shutdown-Holds (returned ok) v h = (refl, h.0, h.1)
after_shutdown-Holds thrown v h = tt

pub stopped-stop : (v : Vehicle) → stop_requested (stopped v).stop ≡ true
unfolding request_stop stop_requested
stopped-stop v = refl

pub with_estop-off : (v : Vehicle) → enabled (with_estop v).drives ≡ false
unfolding estop enabled
with_estop-off v = refl

with_drives_off-off : (v : Vehicle) → enabled (with_drives_off v).drives ≡ false
unfolding disable enabled
with_drives_off-off v = refl

pub with_latch_exchanged-latched : (v : Vehicle) → latched (with_latch_exchanged v).estop ≡ true
unfolding exchange latched
with_latch_exchanged-latched v = ground arith

module _ {D : Type 0} (ulong : ℕ) (show : D → Bytes) where
  pub Move-Holds :
      {m m' : Shared D} {t : Task} {p p' : Pc}
      → Move ulong show m t p m' p'
      → HasSafe m.core.cmd_router
      → Holds p m.core.vehicle
      → Holds p' m'.core.vehicle
  Move-Holds (ignores e) q h = h
  Move-Holds (logs stamp tid source l f e) q h = h
  Move-Holds (locks stamp tid source f e) q h = h
  Move-Holds {m = m} (cuts e) q h = (e, with_estop-off m.core.vehicle)
  Move-Holds (serves {n} now_ns c hd r res v e w x) q h = executed-Holds n c res v
  Move-Holds {m = m} (latches now_ns c hd r e w) q h = with_latch_exchanged-latched m.core.vehicle
  Move-Holds {m = m} stores q h = (with_reason-Kept m.core.vehicle).latch_kept h
  Move-Holds reads q h = read-Holds _ _ _ _
  Move-Holds (persists env result disk e) q h = after_persist-Holds result _
  Move-Holds (wakes e) q h = e
  Move-Holds {m = m} requests q h = stopped-stop m.core.vehicle
  Move-Holds (warns e) q h = h
  Move-Holds {m = m} halts q h = (h, with_estop-off m.core.vehicle)
  Move-Holds {m = m} (disables e) q h = (h, with_drives_off-off m.core.vehicle)
  Move-Holds {m = m} (finishes env result core e) q h =
      after_shutdown-Holds result _
        (Holds-Kept saving (Move-Kept ulong show {m = m} (finishes env result core e) q).0 h)
  Move-Holds _ q h = tt
