-- ===== src/Config/System.antt =====
-- The whole of config/UgvCore.cpp at run time, with the log lines and the mutex behind them, from the
-- return of `start_runtime` to that of `run`. Six tasks take turns: `run` itself and its threads. A
-- step is one access to what they share (a flag, the queue, a file) or one log line; a client
-- may append to the command file at any time. Sleeps are left out: a task may take any time for a
-- step.
pub mod Moves
pub mod Kept
pub mod Places
pub mod Joins
pub mod Safety
pub mod Locked
pub mod Hangs
pub mod Cut
pub mod Frozen
pub mod Weight
pub mod Unread
pub mod Bounded
pub mod Held
pub mod Owners
pub mod CanMove
pub mod Progress
pub mod Shutdown
use arcraven_ugv_core.Common.{
  ℕ, zero, suc, Bool, true, false, ◌&&◌, not, List, [], ◌∷◌, ◌++◌, Option, none, some, ◌==◌,
  if◌then◌else◌, Bytes, bytes, drop, length, ◌+◌, ◌%◌,
}
use arcraven_ugv_core.Stdlib.Decimal.{decimal}
use arcraven_ugv_core.Models.CommandStatus.{CommandStatus, value as status_value}
use arcraven_ugv_core.Models.CommandAuthority.{value as authority_value}
use arcraven_ugv_core.Command.Types.{CommandEnvelope, CommandResult, is_expired, U64}
use arcraven_ugv_core.Command.Router.{CommandRouter, key}
use arcraven_ugv_core.Core.EStopLatch.{latched, reason_string}
use arcraven_ugv_core.Core.StopController.{request_stop}
use arcraven_ugv_core.Subsystems.Interfaces.{SensorFrame, JointState}
use arcraven_ugv_core.Subsystems.Bridge.{Bridge, BridgeFiles, append_to, publish_command_result}
use arcraven_ugv_core.Utils.Logger.{Level, info, warn, Logger}
use arcraven_ugv_core.Config.Vehicle.{Vehicle}
use arcraven_ugv_core.Config.Ticks.{is_rejected}
use arcraven_ugv_core.Config.Boot.{UgvCore}

pub data Task : Type 0 where
  main_task estop_task control_task sensor_task io_task persist_task : Task

-- Where a task stands.
pub data Pc : Type 0 where
  says : Level → Bytes → Pc → Pc  -- before a log line, and what follows it
  stuck : Pc → Pc  -- in a log call that holds the mutex for good, and what would follow it
  test : Pc  -- before the test of the stop flag
  body : Pc  -- in the loop's body
  ended : Pc
  requesting : Pc  -- estop_thread, before `request_stop`
  starting : Pc  -- control_thread, before its loop
  batch : ℕ → Pc  -- in `process_some`, with so many commands still to take
  storing : ℕ → CommandEnvelope → Pc  -- in `trigger`, past the exchange
  stopping : ℕ → CommandEnvelope → Pc  -- in the EmergencyStop handler, past `trigger`
  answered : ℕ → CommandEnvelope × CommandResult → Pc  -- in the callback of `process_some`
  publishing : ℕ → CommandEnvelope × CommandResult → Pc  -- in the callback, past its log line
  pumping : List Bytes → Pc  -- io_thread, with these lines still to read
  submitting : CommandEnvelope → List Bytes → Pc
  waiting : Pc  -- `run`, in its wait
  shutdown : Pc  -- `safe_shutdown`, past its first line
  choosing : Pc  -- past `request_stop`
  halting : Pc  -- latched, before `drives_.estop()`
  joining : Pc
  saving : Pc
  has_returned : ℕ → Pc
  died : Pc  -- std::terminate, after an exception of `save`

-- What the tasks share, and the variables of `sensor_thread`.
pub record Shared (D : Type 0) : Type 0 where
  pub core : UgvCore
  pub frame : SensorFrame
  pub joints : List (JointState D)
  pub log_state : Logger
  pub held : Bool  -- whether a log call holds the logger's mutex for good

abbrev pub with_vehicle : {D : Type 0} → Vehicle → Shared D → Shared D
with_vehicle v m = record m { core = record m.core { vehicle = v } }

abbrev pub with_router : {D : Type 0} → CommandRouter Vehicle → Shared D → Shared D
with_router r m = record m { core = record m.core { cmd_router = r } }

abbrev pub stopped : Vehicle → Vehicle
stopped v = record v { stop = request_stop v.stop }

abbrev pub off_line : Bytes
off_line = bytes "DriveSystem: disabled (stub)"

abbrev pub estop_line : Bytes
estop_line = bytes "DriveSystem: ESTOP (stub) -> outputs disabled"

abbrev pub latched_line : Vehicle → Bytes
latched_line v = bytes "E-STOP LATCHED: " ++ reason_string v.estop

-- A fresh EmergencyStop that is the first to latch.
abbrev pub is_winning : ℕ → CommandEnvelope → Vehicle → Bool
is_winning now_ns c v = key c.command == 700 && (not (is_expired c now_ns) && not (latched v.estop))

-- The answer of a Stop that switched the drives off, which logs a line.
abbrev pub is_stop_done : CommandEnvelope → CommandResult → Bool
is_stop_done c res =
    key c.command == 102 && elim res.status [ CommandStatus.succeeded ↦ true | _ ↦ false ]

abbrev pub executed : ℕ → CommandEnvelope → CommandResult → Pc
executed n c res =
    if is_stop_done c res then says warn off_line (answered n (c, res)) else answered n (c, res)

-- The two halves of the callback of `control_thread`, before and after its log line.
unfoldable pub remember : CommandEnvelope × CommandResult → Vehicle → Vehicle
remember (cmd, res) v =
    let authority =
      if is_rejected res.status then v.state.last_authority else authority_value cmd.authority in
    record v { state = record v.state { last_authority = authority } }

unfoldable pub publish : CommandEnvelope × CommandResult → Vehicle → Vehicle
publish (cmd, res) v = record v {
  files = (publish_command_result cmd.command_id res v.link v.files).1;
}

abbrev pub processed_line : CommandEnvelope × CommandResult → Bytes
processed_line (cmd, res) =
    bytes "Cmd processed: id="
    ++ (decimal cmd.command_id ++ (bytes " status=" ++ decimal (status_value res.status)))

abbrev pub exit_line : Task → Bytes
exit_line main_task = []
exit_line estop_task = bytes "E-STOP thread exiting"
exit_line control_task = bytes "Control thread exiting"
exit_line sensor_task = bytes "Sensor thread exiting"
exit_line io_task = bytes "IO thread exiting"
exit_line persist_task = bytes "Persist thread exiting"

-- A command file that can be opened, or nothing to read.
unfoldable pub unread : BridgeFiles → Bridge → Bytes
unread files b =
    if not (b.initialized && b.attached)
    then []
    else elim files.commands [ none ↦ [] | some content ↦ drop b.command_offset content ]

-- `command_offset_ += line.size() + 1`
abbrev pub advance : Bytes → Vehicle → Vehicle
advance line v = record v {
  link = record v.link { command_offset = (v.link.command_offset + (length line + 1)) % U64 };
}

abbrev pub started_line : Task → Bytes
started_line main_task = []
started_line estop_task = bytes "E-STOP thread started"
started_line control_task = bytes "Control thread started"
started_line sensor_task = bytes "Sensor thread started"
started_line io_task = bytes "IO thread started"
started_line persist_task = bytes "Persist thread started"

abbrev pub says_warning : Option Bytes → Pc → Pc
says_warning none k = k
says_warning (some msg) k = says warn msg k

abbrev pub submits_parsed : Option CommandEnvelope → List Bytes → Pc
submits_parsed none lines = pumping lines
submits_parsed (some env) lines = submitting env lines

-- The client's side of the command file.
unfoldable pub client_write : Bytes → Vehicle → Vehicle
client_write text v = record v {
  files = record v.files { commands = append_to v.files.commands text };
}
