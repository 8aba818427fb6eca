-- ===== src/Examples/Emergency.antt =====
-- An EmergencyStop in the whole system, with the logger as main.cpp sets it up.
use mathlib.Core.Path.{subst}
use arcraven_ugv_core.Common.{
  ℕ, ◌^◌, ◌≤◌, ◌≡◌, ◌≢◌, refl, sym, Bool, true, false, ◌&&◌, [], ◌∷◌, ◌++◌, none, some, Bytes,
  bytes, arith,
}
use arcraven_ugv_core.Core.EStopLatch.{latched, exchange, store_reason}
use arcraven_ugv_core.Core.StopController.{stop_requested, request_stop}
use arcraven_ugv_core.Subsystems.Stubs.{enabled}
use arcraven_ugv_core.Subsystems.Bridge.{
  BridgeFiles, configure_paths, attach_router, line_warning, parts_warning, parse_line, strip_cr,
  parse_parts, publish_command_result, append_telemetry,
}
use arcraven_ugv_core.Utils.Logger.{
  Level, Source, Logger, log, write_line, format_line, flush, level_value, min_level,
}
use arcraven_ugv_core.Stdlib.Lines.{getlines, starts_with}
use arcraven_ugv_core.Stdlib.Decimal.{sto, digits_value}
use arcraven_ugv_core.Utils.Base64.{base64_decode, decode_loop, decode_table}
use arcraven_ugv_core.Models.UgvCommand.{ugv_command_of, value}
use arcraven_ugv_core.Command.Types.{is_expired}
use arcraven_ugv_core.Command.Router.{
  submit, make, register_handler, assign, find, handler_of, take_front, key, execute, call,
  received,
}
use arcraven_ugv_core.Config.Handlers.{
  register_default_command_handlers, default_handlers, on_shutdown,
}
use arcraven_ugv_core.Config.Ticks.{control_start}
use arcraven_ugv_core.Config.Boot.{new_core}
use arcraven_ugv_core.Config.System.{
  Task, main_task, estop_task, control_task, sensor_task, io_task, persist_task, Pc, says, stuck,
  died, Shared, unread, remember, publish,
}
use arcraven_ugv_core.Config.System.Moves.{
  Move, logs, locks, enters, leaves, cuts, prepares, begins, serves, latches, stores, remembers,
  publishes, opens, reads, submits, pumped, wakes, System, moves, writes, Reach, here, next, start,
  at,
}
use arcraven_ugv_core.Config.System.Cut.{IsLooping, turns}
use arcraven_ugv_core.Config.System.Frozen.{IsFrozen}
use arcraven_ugv_core.Examples.System.{frame, show, core_with}
use arcraven_ugv_core.Examples.Process.{robot_log}

abbrev is_alive : Pc → Bool
is_alive died = false
is_alive _ = true

abbrev pub all_alive : (Task → Pc) → Bool
all_alive f =
    is_alive (f main_task)
    && (is_alive (f estop_task)
        && (is_alive (f control_task)
            && (is_alive (f sensor_task) && (is_alive (f io_task) && is_alive (f persist_task)))))

alive : (p : Pc) → is_alive p ≡ true → p ≢ died
alive p h e = ground (arith, h, e)

both : (a b : Bool) → (a && b) ≡ true → (a ≡ true) × (b ≡ true)
both a b h = (ground (arith, h), ground (arith, h))

alive_of : (f : Task → Pc) → all_alive f ≡ true → (t : Task) → f t ≢ died
alive_of f h =
    let (a, h1) = both _ _ h in
    let (b, h2) = both _ _ h1 in
    let (c, h3) = both _ _ h2 in
    let (d, h4) = both _ _ h3 in
    let (e, g) = both _ _ h4 in
    elim [
      | main_task ↦ alive (f main_task) a
      | estop_task ↦ alive (f estop_task) b
      | control_task ↦ alive (f control_task) c
      | sensor_task ↦ alive (f sensor_task) d
      | io_task ↦ alive (f io_task) e
      | persist_task ↦ alive (f persist_task) g
    ]

-- One more step of a task.
then_moves :
    {s u : System ℕ} {t : Task} {m : Shared ℕ} {p : Pc}
    → Reach (2 ^ 64) show s u
    → all_alive u.pc ≡ true
    → Move (2 ^ 64) show u.mem t (u.pc t) m p
    → Reach (2 ^ 64) show s (record { mem = m; pc = at u.pc t p })
then_moves {u = u} r h mv = next r (moves (alive_of u.pc h) mv)

abbrev now : Bytes
now = bytes "now"

abbrev nowhere : Source
nowhere = (none, 0)

abbrev hung : Level → Bytes → Shared ℕ → Shared ℕ
hung lvl msg m = record m {
  log_state = write_line lvl (format_line m.log_state.cfg now [] lvl msg nowhere) m.log_state;
  held = true;
}

-- A log line that comes back.
then_logs :
    {s u : System ℕ} {lvl : Level} {msg : Bytes} {k : Pc} (t : Task) (l : Logger)
    → Reach (2 ^ 64) show s u
    → all_alive u.pc ≡ true
    → u.pc t ≡ says lvl msg k
    → u.mem.held ≡ false
    → log now [] lvl msg nowhere u.mem.log_state ≡ some l
    → Reach (2 ^ 64) show s (record { mem = record u.mem { log_state = l }; pc = at u.pc t k })
then_logs {s} {u} {lvl} {msg} {k} t l r h e f g = then_moves {t = t} r h (
    subst (λ p. Move (2 ^ 64) show u.mem t p (record u.mem { log_state = l }) k) (sym e)
      (logs now [] nowhere l f g))

-- A log line that does not.
then_hangs :
    {s u : System ℕ} {lvl : Level} {msg : Bytes} {k : Pc} (t : Task)
    → Reach (2 ^ 64) show s u
    → all_alive u.pc ≡ true
    → u.pc t ≡ says lvl msg k
    → u.mem.held ≡ false
    → log now [] lvl msg nowhere u.mem.log_state ≡ none
    → Reach (2 ^ 64) show s (record { mem = hung lvl msg u.mem; pc = at u.pc t (stuck k) })
then_hangs {s} {u} {lvl} {msg} {k} t r h e f g = then_moves {t = t} r h (
    subst (λ p. Move (2 ^ 64) show u.mem t p (hung lvl msg u.mem) (stuck k)) (sym e)
      (locks now [] nowhere f g))

abbrev pub emergency_files : BridgeFiles
emergency_files = record {
  commands = some (bytes "C|1|700|0|0|0|0|0|eA==" ++ (10 ∷ []));
  telemetry = some [];
  appends = λ n. some 4096;
  opened = 0;
}

abbrev pub s0 : System ℕ
s0 = start frame robot_log (core_with emergency_files)

-- The IO thread reads an EmergencyStop, and the control thread takes it.
pub caught :
    (s : System ℕ) × Reach (2 ^ 64) show s0 s
    × (latched s.mem.core.vehicle.estop ≡ true)
    × (stop_requested s.mem.core.vehicle.stop ≡ false)
    × IsLooping (s.pc estop_task)
    × (all_alive s.pc ≡ true)
unfolding new_core stop_requested latched log write_line format_line flush level_value min_level
    getlines unread configure_paths attach_router line_warning parts_warning parse_line strip_cr
    starts_with parse_parts sto digits_value base64_decode ugv_command_of submit make
    register_default_command_handlers register_handler take_front exchange is_expired key value
    control_start decode_loop decode_table default_handlers
caught =
    let r0 : Reach (2 ^ 64) show s0 s0 = here in
    let r1 = then_logs io_task _ r0 refl refl refl refl in
    let r2 = then_moves {t = io_task} r1 refl (enters refl) in
    let r3 = then_moves {t = io_task} r2 refl opens in
    let r4 = then_moves {t = io_task} r3 refl reads in
    let r5 = then_moves {t = io_task} r4 refl submits in
    let r6 = then_logs estop_task _ r5 refl refl refl refl in
    let r7 = then_logs control_task _ r6 refl refl refl refl in
    let r8 = then_moves {t = control_task} r7 refl prepares in
    let r9 = then_moves {t = control_task} r8 refl (enters refl) in
    let r10 = then_moves {t = control_task} r9 refl (begins refl) in
    let r11 = then_moves {t = control_task} r10 refl (latches 0 _ _ _ refl refl) in
    (_, r11, refl, refl, tt, refl)

-- From there the emergency-stop thread takes two steps.
pub cut : (s : System ℕ) × (r : Reach (2 ^ 64) show caught.0 s) × (2 ≤ turns (2 ^ 64) show r)
unfolding stop_requested latched turns caught then_moves
cut =
    let r0 : Reach (2 ^ 64) show caught.0 caught.0 = here in
    let r1 = then_moves {t = estop_task} r0 caught.5 (enters caught.3) in
    let r2 = then_moves {t = estop_task} r1 refl (cuts caught.2) in (_, r2, omega arith)

-- A Shutdown, and an EmergencyStop in the same batch.
abbrev pub two_files : BridgeFiles
two_files = record {
  commands =
      some (bytes "C|1|704|0|0|0|0|0|eA==" ++ (10 ∷ bytes "C|2|700|0|0|0|0|0|eA==" ++ (10 ∷ [])));
  telemetry = some [];
  appends = λ n. some 4096;
  opened = 0;
}

abbrev pub t0 : System ℕ
t0 = start frame robot_log (core_with two_files)

pub frozen :
    (s : System ℕ) × Reach (2 ^ 64) show t0 s
    × (stop_requested s.mem.core.vehicle.stop ≡ true)
    × (enabled s.mem.core.vehicle.drives ≡ true)
    × IsFrozen s
unfolding new_core stop_requested latched log write_line format_line flush level_value min_level
    getlines unread configure_paths attach_router line_warning parts_warning parse_line strip_cr
    starts_with parse_parts sto digits_value base64_decode ugv_command_of submit make
    register_default_command_handlers register_handler take_front exchange is_expired key value
    control_start decode_loop decode_table default_handlers enabled execute call received
    on_shutdown request_stop handler_of find assign publish remember publish_command_result
    append_telemetry store_reason
frozen =
    let r0 : Reach (2 ^ 64) show t0 t0 = here in
    let r1 = then_logs io_task _ r0 refl refl refl refl in
    let r2 = then_moves {t = io_task} r1 refl (enters refl) in
    let r3 = then_moves {t = io_task} r2 refl opens in
    let r4 = then_moves {t = io_task} r3 refl reads in
    let r5 = then_moves {t = io_task} r4 refl submits in
    let r6 = then_moves {t = io_task} r5 refl reads in
    let r7 = then_moves {t = io_task} r6 refl submits in
    let r8 = then_logs control_task _ r7 refl refl refl refl in
    let r9 = then_moves {t = control_task} r8 refl prepares in
    let r10 = then_moves {t = control_task} r9 refl (enters refl) in
    let r11 = then_moves {t = control_task} r10 refl (begins refl) in
    let r12 = then_moves {t = control_task} r11 refl (serves 0 _ _ _ _ _ refl refl refl) in
    let r13 = then_moves {t = control_task} r12 refl remembers in
    let r14 = then_logs control_task _ r13 refl refl refl refl in
    let r15 = then_moves {t = control_task} r14 refl publishes in
    let r16 = then_moves {t = control_task} r15 refl (latches 0 _ _ _ refl refl) in
    let r17 = then_moves {t = control_task} r16 refl stores in
    let r18 = then_hangs control_task r17 refl refl refl refl in
    let r19 = then_moves {t = main_task} r18 refl (wakes refl) in
    (
      _,
      r19,
      refl,
      refl,
      record { held = refl; main_waits = refl; estop_waits = refl; control_waits = tt },
    )

-- Later, when the IO thread has left its loop and a client has written once more.
pub frozen_later : (s : System ℕ) × Reach (2 ^ 64) show frozen.0 s
unfolding stop_requested frozen then_moves
frozen_later =
    let r0 : Reach (2 ^ 64) show frozen.0 frozen.0 = here in
    let r1 = then_moves {t = io_task} r0 refl pumped in
    let r2 = then_moves {t = io_task} r1 refl (leaves refl) in (_, next r2 (writes (bytes "C|3|")))
