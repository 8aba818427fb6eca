-- ===== src/Config/Vehicle.antt =====
-- config/UgvCore.hpp: the members of UgvCore that command handlers and their callers change. The
-- router stands beside them, and the bridge's files with the bridge that writes them.
use arcraven_ugv_core.Core.EStopLatch.{EStopLatch}
use arcraven_ugv_core.Core.StopController.{StopController}
use arcraven_ugv_core.Core.StateStore.{PersistentStateV1}
use arcraven_ugv_core.Subsystems.Stubs.{DriveSystemStub}
use arcraven_ugv_core.Subsystems.Bridge.{Bridge, BridgeFiles}

pub record Vehicle : Type 0 where
  pub stop : StopController
  pub estop : EStopLatch
  pub state : PersistentStateV1
  pub drives : DriveSystemStub
  pub link : Bridge
  pub files : BridgeFiles
