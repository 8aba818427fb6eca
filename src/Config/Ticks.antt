-- ===== src/Config/Ticks.antt =====
-- The threads of config/UgvCore.cpp: what each does in one round of its loop, behind the test of the
-- stop flag. Log lines and sleeps are left out; Config.Fatal has the fatal log lines.
pub mod Control
pub mod Safe
use arcraven_ugv_core.Common.{
  ℕ, Bool, true, false, not, List, [], ◌∷◌, Option, none, some, if◌then◌else◌, Bytes,
}
use arcraven_ugv_core.Models.CommandStatus.{CommandStatus}
use arcraven_ugv_core.Models.CommandAuthority.{CommandAuthority, value as authority_value}
use arcraven_ugv_core.Command.Types.{CommandEnvelope, CommandResult}
use arcraven_ugv_core.Command.Router.{CommandRouter, process_some}
use arcraven_ugv_core.Core.EStopLatch.{latched}
use arcraven_ugv_core.Core.StopController.{request_stop}
use arcraven_ugv_core.Core.StateStore.{Disk, SaveFaults, SaveResult, save}
use arcraven_ugv_core.Subsystems.Interfaces.{SensorFrame, JointState}
use arcraven_ugv_core.Subsystems.Stubs.{estop, read_joint_states, read_frame}
use arcraven_ugv_core.Subsystems.Bridge.{pump_rx, publish_command_result, publish_telemetry}
use arcraven_ugv_core.Config.Vehicle.{Vehicle}

-- `estop_thread`
unfoldable pub estop_round : Vehicle → Vehicle
estop_round v =
    if latched v.estop then record v { drives = estop v.drives; stop = request_stop v.stop } else v

abbrev pub is_rejected : CommandStatus → Bool
is_rejected CommandStatus.rejected = true
is_rejected _ = false

-- What `control_thread` does once, before its loop.
unfoldable pub control_start : Vehicle → Vehicle
control_start v = record v {
  state = record v.state { last_authority = authority_value CommandAuthority.unknown };
}

-- The callback of `control_thread`: the authority of a command that was not rejected is remembered,
-- and the result goes out over the bridge.
unfoldable pub on_processed : CommandEnvelope × CommandResult → Vehicle → Vehicle
on_processed (cmd, res) v =
    let authority =
      if is_rejected res.status then v.state.last_authority else authority_value cmd.authority in
    record v {
      state = record v.state { last_authority = authority };
      files = (publish_command_result cmd.command_id res v.link v.files).1;
    }

abbrev pub max_n : ℕ
max_n = 8

-- `control_thread`
unfoldable pub control_round : ℕ → CommandRouter Vehicle → Vehicle → CommandRouter Vehicle × Vehicle
control_round now_ns r v =
    if not (latched v.estop) then process_some now_ns max_n on_processed r v else (r, v)

-- `sensor_thread`, which keeps a frame and a list of joints from round to round.
unfoldable pub sensor_round :
    {D : Type 0}
    → (D → Bytes)
    → ℕ
    → SensorFrame
    → List (JointState D)
    → Vehicle
    → SensorFrame × List (JointState D) × Vehicle
sensor_round show now_ns frame joints v =
    let (has_frame, frame') = read_frame (record frame { timestamp_ns = now_ns }) in
    let (has_joints, joints') = read_joint_states v.drives joints in
    let frame'' =
      if has_frame then frame' else record frame' { ids = []; types = []; payloads = [] } in
    let joints'' = if has_joints then joints' else [] in
    (
      frame'',
      joints'',
      record v { files = (publish_telemetry show frame'' joints'' v.link v.files).1 },
    )

-- `io_thread`; `pump_tx` changes nothing.
unfoldable pub io_round : ℕ → CommandRouter Vehicle → Vehicle → CommandRouter Vehicle × Vehicle
io_round ulong r v =
    let (_, link, r') = pump_rx ulong v.files v.link r in (r', record v { link = link })

-- `persist_thread`
unfoldable pub persist_round : SaveFaults → Vehicle → Disk → SaveResult × Disk
persist_round env v disk = save env v.state disk
