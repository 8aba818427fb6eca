-- ===== src/Subsystems/Stubs.antt =====
-- subsystems/Stubs.hpp, without the log lines.
pub mod Contract
use arcraven_ugv_core.Common.{ℕ, Bool, true, false, List}
use arcraven_ugv_core.Subsystems.Interfaces.{
  SensorFrame, JointState, IDriveSystem, ISensorSuite, ICommandLink,
}

pub record DriveSystemStub : Type 0 where
  pub drive_count : ℕ
  pub is_enabled : Bool

unfoldable pub make_drives : ℕ → DriveSystemStub
make_drives drive_count = record { drive_count = drive_count; is_enabled = false }

unfoldable pub init_drives : DriveSystemStub → Bool × DriveSystemStub
init_drives d = (true, d)

unfoldable pub enable : DriveSystemStub → Bool × DriveSystemStub
enable d = (true, record d { is_enabled = true })

unfoldable pub disable : DriveSystemStub → DriveSystemStub
disable d = record d { is_enabled = false }

unfoldable pub estop : DriveSystemStub → DriveSystemStub
estop d = record d { is_enabled = false }

-- The result, and what is then in `out`.
unfoldable pub read_joint_states :
    {D : Type 0} → DriveSystemStub → List (JointState D) → Bool × List (JointState D)
read_joint_states d out = (false, out)

unfoldable pub enabled : DriveSystemStub → Bool
enabled d = d.is_enabled

-- `SensorSuiteStub` keeps no state; `poll` does nothing.
unfoldable pub init_sensors : Bool
init_sensors = true

unfoldable pub read_frame : SensorFrame → Bool × SensorFrame
read_frame out = (false, out)

abbrev pub drive_system : {D : Type 0} → IDriveSystem D DriveSystemStub
drive_system = record {
  init = init_drives;
  enable = enable;
  disable = disable;
  estop = estop;
  read_joint_states = λ out d. let (ok, joints) = read_joint_states d out in (ok, joints, d);
}

abbrev pub sensor_suite : ISensorSuite Unit
sensor_suite = record {
  init = λ s. (init_sensors, s);
  poll = λ s. s;
  read_frame = λ out s. let (ok, frame) = read_frame out in (ok, frame, s);
}

abbrev pub command_link : ICommandLink Unit
command_link = record {
  init = λ s. (true, s);
  pump_rx = λ s. (false, s);
  pump_tx = λ s. (false, s);
}
