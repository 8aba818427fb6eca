-- ===== src/Config/System/Frozen.antt =====
-- Tasks that wait for the logger's mutex for good, among them all that could switch the drives off.
use mathlib.Core.Path.{subst}
use arcraven_ugv_core.Common.{ℕ, ◌≡◌, ◌≢◌, refl, ap, sym, ◌∙◌, true, false, Bytes, arith, ltb}
use arcraven_ugv_core.Utils.Logger.{Level, level_value, min_level}
use arcraven_ugv_core.Config.Ticks.{sensor_round}
use arcraven_ugv_core.Config.System.{
  Task, main_task, estop_task, control_task, sensor_task, io_task, persist_task, Pc, says, stuck,
  joining, Shared, client_write,
}
use arcraven_ugv_core.Config.System.Moves.{
  Move, ignores, logs, locks, senses, System, Step, moves, joins, writes, Reach, here, next, at,
}

-- Before a log line that takes the mutex, or in a log call for good.
abbrev pub IsWaiting : Level → Pc → Type 0
IsWaiting low (says lvl msg k) = ltb (level_value lvl) (level_value low) ≡ false
IsWaiting low (stuck k) = Unit
IsWaiting low _ = ⊥

-- The mutex is held for good, and `run`, the emergency-stop and the control thread wait for it.
pub record IsFrozen {D : Type 0} (s : System D) : Type 0 where
  pub held : s.mem.held ≡ true
  pub main_waits : IsWaiting (min_level s.mem.log_state) (s.pc main_task)
  pub estop_waits : IsWaiting (min_level s.mem.log_state) (s.pc estop_task)
  pub control_waits : IsWaiting (min_level s.mem.log_state) (s.pc control_task)

module _ {D : Type 0} (ulong : ℕ) (show : D → Bytes) where
  waiting-stays :
      {m m' : Shared D} {t : Task} {p p' : Pc}
      → Move ulong show m t p m' p'
      → m.held ≡ true
      → IsWaiting (min_level m.log_state) p
      → ⊥
  waiting-stays (ignores e) h x = ground (arith, e, x)
  waiting-stays (logs stamp tid source l f e) h x = ground (arith, f, h)
  waiting-stays (locks stamp tid source f e) h x = ground (arith, f, h)
  waiting-stays _ h x = x

  -- What the other threads leave alone.
  Alike : Shared D → Shared D → Type 0
  Alike m m' =
      (m'.held ≡ m.held)
      × (m'.log_state ≡ m.log_state)
      × (m'.core.vehicle.drives ≡ m.core.vehicle.drives)

  sensor-Alike :
      {m m' : Shared D} {p p' : Pc}
      → Move ulong show m sensor_task p m' p'
      → m.held ≡ true
      → Alike m m'
  unfolding Alike sensor_round
  sensor-Alike (logs stamp tid source l f e) h = absurd (ground (arith, f, h))
  sensor-Alike (locks stamp tid source f e) h = absurd (ground (arith, f, h))
  sensor-Alike (senses now_ns frame joints v e) h = (refl, refl, sym (ap (λ out. out.2.drives) e))
  sensor-Alike _ h = (refl, refl, refl)

  io-Alike :
      {m m' : Shared D} {p p' : Pc} → Move ulong show m io_task p m' p' → m.held ≡ true → Alike m m'
  unfolding Alike
  io-Alike (logs stamp tid source l f e) h = absurd (ground (arith, f, h))
  io-Alike (locks stamp tid source f e) h = absurd (ground (arith, f, h))
  io-Alike _ h = (refl, refl, refl)

  persist-Alike :
      {m m' : Shared D} {p p' : Pc}
      → Move ulong show m persist_task p m' p'
      → m.held ≡ true
      → Alike m m'
  unfolding Alike
  persist-Alike (logs stamp tid source l f e) h = absurd (ground (arith, f, h))
  persist-Alike (locks stamp tid source f e) h = absurd (ground (arith, f, h))
  persist-Alike _ h = (refl, refl, refl)

  -- Whatever else moves.
  still_frozen :
      {m m' : Shared D} (f g : Task → Pc)
      → Alike m m'
      → (f main_task ≡ g main_task)
        × (f estop_task ≡ g estop_task)
        × (f control_task ≡ g control_task)
      → IsFrozen (record { mem = m; pc = f })
      → Alike m m' × IsFrozen (record { mem = m'; pc = g })
  unfolding Alike
  still_frozen {m} {m'} f g (a, b, c) (x, y, z) w = (
    (a, b, c),
    record {
      held = a ∙ w.held;
      main_waits = waits x w.main_waits;
      estop_waits = waits y w.estop_waits;
      control_waits = waits z w.control_waits;
    },
  )
    where
      waits :
          {p q : Pc}
          → p ≡ q
          → IsWaiting (min_level m.log_state) p
          → IsWaiting (min_level m'.log_state) q
      waits {p} e h =
          subst (IsWaiting (min_level m'.log_state)) e
            (subst (λ l. IsWaiting (min_level l) p) (sym b) h)

  frozen-Alike :
      (f : Task → Pc) (t : Task) (p : Pc) {m m' : Shared D}
      → Move ulong show m t (f t) m' p
      → IsFrozen (record { mem = m; pc = f })
      → Alike m m' × IsFrozen (record { mem = m'; pc = at f t p })
  frozen-Alike f main_task p mv z = absurd (waiting-stays mv z.held z.main_waits)
  frozen-Alike f estop_task p mv z = absurd (waiting-stays mv z.held z.estop_waits)
  frozen-Alike f control_task p mv z = absurd (waiting-stays mv z.held z.control_waits)
  frozen-Alike f sensor_task p mv z =
      still_frozen f (at f sensor_task p) (sensor-Alike mv z.held) (refl, refl, refl) z
  frozen-Alike f io_task p mv z =
      still_frozen f (at f io_task p) (io-Alike mv z.held) (refl, refl, refl) z
  frozen-Alike f persist_task p mv z =
      still_frozen f (at f persist_task p) (persist-Alike mv z.held) (refl, refl, refl) z

  not_joining : (low : Level) {p : Pc} → IsWaiting low p → p ≢ joining
  not_joining low h e = subst (IsWaiting low) e h

  Step-frozen :
      {s u : System D}
      → Step ulong show s u
      → IsFrozen s
      → (u.mem.core.vehicle.drives ≡ s.mem.core.vehicle.drives) × IsFrozen u
  unfolding Alike client_write
  Step-frozen {s} (moves {t} {m} {p} alive mv) z =
      let (alike, z') = frozen-Alike s.pc t p mv z in (alike.2, z')
  Step-frozen {s} (joins e all) z = absurd (not_joining (min_level s.mem.log_state) z.main_waits e)
  Step-frozen (writes text) z = (
    refl,
    record {
      held = z.held;
      main_waits = z.main_waits;
      estop_waits = z.estop_waits;
      control_waits = z.control_waits;
    },
  )

  -- While the mutex is held for good, and `run`, the emergency-stop and the control thread are before
  -- a log line that takes it or in the call that holds it, all three stay there, and the drives stay
  -- as they are, on or off.
  pub frozen-drives :
      {s u : System D}
      → IsFrozen s
      → Reach ulong show s u
      → (u.mem.core.vehicle.drives ≡ s.mem.core.vehicle.drives) × IsFrozen u
  frozen-drives z here = (refl, z)
  frozen-drives z (next r st) =
      let (same, z') = frozen-drives z r in
      let (step, z'') = Step-frozen st z' in (step ∙ same, z'')
