-- ===== src/Config/Handlers.antt =====
-- `register_default_command_handlers` of config/UgvCore.cpp. One handler names the enumerator
-- `RejectReason::SafetyLockout`, which models/enums/RejectReason.hpp does not declare: it is the
-- parameter `safety_lockout`. Log lines are left out; Config.Fatal has the fatal one of EmergencyStop.
pub mod Answers
pub mod Entries
pub mod Quiet
pub mod Tidy
pub mod Safe
use Prim.Native.String.{String}
use mathlib.Core.List.{foldl}
use arcraven_ugv_core.Common.{
  Bool, true, false, List, [], ◌∷◌, ◌++◌, map, if◌then◌else◌, Bytes, bytes,
}
use arcraven_ugv_core.Stdlib.Lines.{starts_with}
use arcraven_ugv_core.Models.UgvCommand.{UgvCommand}
use arcraven_ugv_core.Models.CommandStatus.{CommandStatus}
use arcraven_ugv_core.Models.RejectReason.{RejectReason}
use arcraven_ugv_core.Command.Types.{CommandEnvelope, CommandResult}
use arcraven_ugv_core.Command.Router.{CommandHandler, callable, CommandRouter, register_handler}
use arcraven_ugv_core.Core.EStopLatch.{trigger, latched}
use arcraven_ugv_core.Core.StopController.{request_stop}
use arcraven_ugv_core.Subsystems.Stubs.{disable}
use arcraven_ugv_core.Config.Vehicle.{Vehicle}

abbrev pub succeeded : Bytes → CommandResult
succeeded message = record {
  status = CommandStatus.succeeded;
  reject_reason = RejectReason.none;
  message = message;
}

abbrev accepted : Bytes → CommandResult
accepted message = record {
  status = CommandStatus.accepted;
  reject_reason = RejectReason.none;
  message = message;
}

abbrev rejected : RejectReason → Bytes → CommandResult
rejected reason message = record {
  status = CommandStatus.rejected;
  reject_reason = reason;
  message = message;
}

unfoldable pub on_emergency_stop : CommandEnvelope → Vehicle → CommandResult × Vehicle
on_emergency_stop c v = (
  succeeded (bytes "estop latched"),
  record v { estop = trigger (bytes "EmergencyStop command") v.estop; stop = request_stop v.stop },
)

unfoldable pub on_shutdown : CommandEnvelope → Vehicle → CommandResult × Vehicle
on_shutdown c v = (succeeded (bytes "shutdown requested"), record v { stop = request_stop v.stop })

unfoldable pub on_stop : RejectReason → CommandEnvelope → Vehicle → CommandResult × Vehicle
on_stop safety_lockout c v =
    if latched v.estop
    then (rejected safety_lockout (bytes "estop latched"), v)
    else (succeeded (bytes "drives disabled"), record v { drives = disable v.drives })

unfoldable pub on_wait : CommandEnvelope → Vehicle → CommandResult × Vehicle
on_wait c v = (accepted (bytes "wait accepted (stub)"), v)

unfoldable pub on_reboot : CommandEnvelope → Vehicle → CommandResult × Vehicle
on_reboot c v =
    (accepted (bytes "reboot requested (stub)"), record v { stop = request_stop v.stop })

unfoldable pub on_signal : CommandEnvelope → Vehicle → CommandResult × Vehicle
on_signal c v =
    if starts_with c.payload_json (bytes "flashlight|")
    then (accepted (bytes "flashlight command accepted"), v)
    else (accepted (bytes "Signal accepted (stub)"), v)

-- The handlers of FollowPath, GoTo, SafeMode, SelfCheck and CalibrateSensors, and those that
-- `register_stub` makes.
unfoldable pub stub : String → CommandEnvelope → Vehicle → CommandResult × Vehicle
stub label c v = (accepted (bytes label ++ bytes " accepted (stub)"), v)

-- The handlers that are written out, in the order of their registration.
unfoldable pub written_handlers : RejectReason → List (UgvCommand × CommandHandler Vehicle)
written_handlers safety_lockout =
    (UgvCommand.emergency_stop, callable on_emergency_stop)
    ∷ (UgvCommand.shutdown, callable on_shutdown)
    ∷ (UgvCommand.stop, callable (on_stop safety_lockout))
    ∷ (UgvCommand.wait, callable on_wait)
    ∷ (UgvCommand.reboot, callable on_reboot)
    ∷ (UgvCommand.follow_path, callable (stub "FollowPath"))
    ∷ (UgvCommand.go_to, callable (stub "GoTo"))
    ∷ (UgvCommand.safe_mode, callable (stub "SafeMode"))
    ∷ (UgvCommand.self_check, callable (stub "SelfCheck"))
    ∷ (UgvCommand.calibrate_sensors, callable (stub "CalibrateSensors"))
    ∷ (UgvCommand.signal, callable on_signal)
    ∷ []

-- What is handed to `register_stub`, in order.
unfoldable pub stub_labels : List (UgvCommand × String)
stub_labels =
    (UgvCommand.hold_position, "HoldPosition")
    ∷ (UgvCommand.anchor, "Anchor")
    ∷ (UgvCommand.replan_to, "ReplanTo")
    ∷ (UgvCommand.loiter, "Loiter")
    ∷ (UgvCommand.return_to_base, "ReturnToBase")
    ∷ (UgvCommand.follow_target, "FollowTarget")
    ∷ (UgvCommand.evade, "Evade")
    ∷ (UgvCommand.dock, "Dock")
    ∷ (UgvCommand.set_speed_limit, "SetSpeedLimit")
    ∷ (UgvCommand.set_stance, "SetStance")
    ∷ (UgvCommand.align_heading, "AlignHeading")
    ∷ (UgvCommand.face_target, "FaceTarget")
    ∷ (UgvCommand.stabilize, "Stabilize")
    ∷ (UgvCommand.scan_area, "ScanArea")
    ∷ (UgvCommand.observe, "Observe")
    ∷ (UgvCommand.focus_sensor, "FocusSensor")
    ∷ (UgvCommand.track_entity, "TrackEntity")
    ∷ (UgvCommand.sentinel, "Sentinel")
    ∷ (UgvCommand.secure_area, "SecureArea")
    ∷ (UgvCommand.escort, "Escort")
    ∷ (UgvCommand.checkpoint, "Checkpoint")
    ∷ (UgvCommand.investigate, "Investigate")
    ∷ (UgvCommand.shadow, "Shadow")
    ∷ (UgvCommand.execute_mission, "ExecuteMission")
    ∷ (UgvCommand.abort_mission, "AbortMission")
    ∷ (UgvCommand.pause_mission, "PauseMission")
    ∷ (UgvCommand.resume_mission, "ResumeMission")
    ∷ (UgvCommand.handoff_control, "HandoffControl")
    ∷ (UgvCommand.broadcast, "Broadcast")
    ∷ (UgvCommand.acknowledge, "Acknowledge")
    ∷ (UgvCommand.request_assistance, "RequestAssistance")
    ∷ (UgvCommand.recover, "Recover")
    ∷ (UgvCommand.set_ruleset, "SetRuleset")
    ∷ (UgvCommand.set_ownership, "SetOwnership")
    ∷ (UgvCommand.lock_command_set, "LockCommandSet")
    ∷ (UgvCommand.unlock_command_set, "UnlockCommandSet")
    ∷ []

abbrev pub stub_handler : UgvCommand × String → UgvCommand × CommandHandler Vehicle
stub_handler (cmd, label) = (cmd, callable (stub label))

unfoldable pub default_handlers : RejectReason → List (UgvCommand × CommandHandler Vehicle)
unfolding written_handlers stub_labels
default_handlers safety_lockout = written_handlers safety_lockout ++ map stub_handler stub_labels

abbrev register_pair :
    CommandRouter Vehicle → UgvCommand × CommandHandler Vehicle → CommandRouter Vehicle
register_pair r (cmd, handler) = register_handler cmd handler r

unfoldable pub register_default_command_handlers :
    RejectReason → CommandRouter Vehicle → CommandRouter Vehicle
register_default_command_handlers safety_lockout r =
    foldl register_pair r (default_handlers safety_lockout)
