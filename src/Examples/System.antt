-- ===== src/Examples/System.antt =====
-- A vehicle that boots, reads an EmergencyStop from its command file and shuts down.
use mathlib.Core.List.{foldl}
use arcraven_ugv_core.Common.{
  ℕ, ◌^◌, ◌≤◌, ◌≡◌, refl, true, false, List, [], ◌∷◌, ◌++◌, none, some, Bytes, bytes,
}
use arcraven_ugv_core.Command.Router.{
  make, submit, process_one, take_front, handler_of, find, register_handler, assign, execute, call,
  received, key,
}
use arcraven_ugv_core.Command.Types.{is_expired, CommandEnvelope, default_envelope}
use arcraven_ugv_core.Models.UgvCommand.{UgvCommand, value, ugv_command_of}
use arcraven_ugv_core.Stdlib.Lines.{starts_with, getlines}
use arcraven_ugv_core.Stdlib.Decimal.{sto, digits_value}
use arcraven_ugv_core.Utils.Base64.{base64_decode}
use arcraven_ugv_core.Config.Handlers.{
  register_default_command_handlers, default_handlers, on_emergency_stop,
}
use arcraven_ugv_core.Subsystems.Stubs.{enabled}
use arcraven_ugv_core.Config.Ticks.{io_round, on_processed, control_start}
use arcraven_ugv_core.Models.RejectReason.{RejectReason}
use arcraven_ugv_core.Core.EStopLatch.{latched, trigger, exchange, store_reason}
use arcraven_ugv_core.Core.StopController.{stop_requested, request_stop}
use arcraven_ugv_core.Core.StateStore.{Disk, SaveFaults, save}
use arcraven_ugv_core.Subsystems.Interfaces.{SensorFrame}
use arcraven_ugv_core.Subsystems.Bridge.{
  BridgeFiles, pump_rx, pump_lines, submit_line, parse_line, strip_cr, parse_parts, configure_paths,
  attach_router,
}
use arcraven_ugv_core.Config.UgvConfig.{UgvConfig, default_config}
use arcraven_ugv_core.Config.Boot.{
  UgvCore, new_core, BootFaults, boot, waits, control_thread, io_thread,
}
use arcraven_ugv_core.Config.Boot.Outcome.{IsUp, boot_outcomes, all_threads, calibrated}
use arcraven_ugv_core.Config.Runtime.{
  Runtime, Reach, Step, is_running, body, test, here, next, start, ticks, enters, pumps,
  starts_control, begins_batch, serves, waiting,
}
use arcraven_ugv_core.Config.Ticks.Control.{summary, effect}
use arcraven_ugv_core.Config.Runtime.Shutdown.{steps, shutdown_ends}
use arcraven_ugv_core.Config.Runtime.Batch.{batch-Reach-effect}

abbrev pub disk : Disk
disk = record { file = none; tmp = none }

abbrev files : BridgeFiles
files = record {
  commands = some (bytes "C|1|700|0|0|0|0|0|eA==" ++ (10 ∷ []));
  telemetry = none;
  appends = λ n. some 4096;
  opened = 0;
}

abbrev works : SaveFaults
works = record {
  creates = true;
  opens = true;
  written = 28;
  renames = true;
  removes = true;
  renames_again = true;
}

abbrev faults : BootFaults
faults = record {
  link = record {
    creates = true;
    sees_commands = true;
    sees_telemetry = true;
    makes_commands = true;
    makes_telemetry = true;
  };
  state_opens = true;
  saves = works;
  last_save = works;
}

abbrev pub cfg : UgvConfig
cfg = default_config (bytes "/data")

boot_outcomes_example :
    (core : UgvCore) × (boot false RejectReason.none faults (new_core cfg disk files) ≡ waits core)
    × IsUp RejectReason.none true disk core
    × (core.disk ≡ (save works (calibrated true disk) disk).1)
unfolding save
boot_outcomes_example =
    ((boot_outcomes false RejectReason.none faults cfg disk files).2 refl refl).1 true refl

-- The core that waits, written out.
abbrev pub core_with : BridgeFiles → UgvCore
core_with bridge_files = record (new_core cfg disk bridge_files) {
  threads = all_threads;
  vehicle = record (new_core cfg disk bridge_files).vehicle {
    state = calibrated true disk;
    drives = record { drive_count = 8; is_enabled = true };
    link = record (new_core cfg disk bridge_files).vehicle.link { initialized = true };
  };
  cmd_router =
      register_default_command_handlers RejectReason.none (make (record { max_queue = 256 }));
}

abbrev core : UgvCore
core = core_with files

pub core_with-IsUp :
    (bridge_files : BridgeFiles) → IsUp RejectReason.none true disk (core_with bridge_files)
unfolding new_core stop_requested latched enabled
core_with-IsUp bridge_files = record {
  started = refl;
  on = refl;
  unstopped = refl;
  unlatched = refl;
  state = refl;
  linked = refl;
  routed = refl;
}

core-IsUp : IsUp RejectReason.none true disk core
core-IsUp = core_with-IsUp files

abbrev pub frame : SensorFrame
frame = record { timestamp_ns = 0; ids = []; types = []; payloads = [] }

abbrev pub show : ℕ → Bytes
show n = []

abbrev System : Type 0
System = Runtime ℕ

abbrev s0 : System
s0 = start frame core

-- The IO thread reads the command, and the control thread executes it.
latches :
    (s : System) × Reach (2 ^ 64) show s0 s
    × (latched s.core.vehicle.estop ≡ true)
    × (stop_requested s.core.vehicle.stop ≡ true)
    × (s.main ≡ waiting)
unfolding new_core stop_requested latched enabled io_round pump_rx pump_lines submit_line submit
    parse_line strip_cr starts_with getlines parse_parts sto base64_decode ugv_command_of
    process_one take_front handler_of find register_default_command_handlers default_handlers
    register_handler assign execute call received on_emergency_stop trigger exchange store_reason
    request_stop on_processed key value is_expired control_start configure_paths attach_router
    digits_value make
latches = (
  _,
  next
      (next
        (next
          (next
            (next (next here (ticks refl (enters io_thread refl refl)))
              (ticks refl (pumps _ _ refl refl)))
            (ticks refl (starts_control refl)))
          (ticks refl (enters control_thread refl refl)))
        (ticks refl (begins_batch refl refl)))
      (ticks refl (serves 0 7 _ _ _ refl refl)),
  refl,
  refl,
  refl,
)

shutdown_ends_example :
    ((u : System) (r : Reach (2 ^ 64) show latches.0 u)
      → (steps (2 ^ 64) show r ≤ 57)
        × ((is_running u.main ≡ true) → ((w : System) × Step (2 ^ 64) show u w)))
    × ((w : System) × Reach (2 ^ 64) show latches.0 w × (is_running w.main ≡ false))
shutdown_ends_example =
    shutdown_ends (2 ^ 64) show RejectReason.none true disk frame core core-IsUp latches.0 latches.1
      latches.3

abbrev two_commands : List CommandEnvelope
two_commands =
    record default_envelope { command = UgvCommand.emergency_stop; command_id = 1 }
    ∷ record default_envelope { command = UgvCommand.wait; command_id = 2 }
    ∷ []

abbrev in_body : System
in_body = record s0 {
  phase = λ t. body;
  core = record core { cmd_router = record core.cmd_router { q = two_commands } };
}

batch-Reach-effect_example :
    (u : System) × Reach (2 ^ 64) show in_body u
    × (u.phase control_thread ≡ test)
    × (u.core.cmd_router.q ≡ [])
    × (summary u.core.vehicle ≡ foldl (effect 5) (summary core.vehicle) two_commands)
unfolding latched new_core
batch-Reach-effect_example =
    batch-Reach-effect (2 ^ 64) show RejectReason.none (make (record { max_queue = 256 })) 5 in_body
      refl refl refl refl (tt, (tt, tt))
