-- ===== src/Config/Boot.antt =====
-- config/UgvCore.hpp and UgvCore.cpp: the object, and what `run` does before it waits. Log lines are
-- left out, but for one thing: `fatal_returns` is whether a call of ARC_LOG_FATAL comes back, which
-- utils/Logger.cpp decides. Until the handlers are registered no code latches the stop, so the
-- emergency-stop thread, which starts earlier, has nothing to do meanwhile.
pub mod Outcome
use arcraven_ugv_core.Common.{
  ℕ, Bool, true, false, not, List, [], ◌∷◌, ◌++◌, Option, none, some, if◌then◌else◌, Bytes, bytes,
}
use arcraven_ugv_core.Models.RejectReason.{RejectReason}
use arcraven_ugv_core.Command.Router.{CommandRouter, CommandRouterConfig, make}
use arcraven_ugv_core.Core.EStopLatch.{EStopLatch, released, latched}
use arcraven_ugv_core.Core.StopController.{not_stopped, request_stop}
use arcraven_ugv_core.Core.StateStore.{
  PersistentStateV1, default_state, Disk, load, SaveFaults, SaveResult, returned, thrown, save,
}
use arcraven_ugv_core.Subsystems.Stubs.{
  DriveSystemStub, make_drives, init_drives, init_sensors, enable, disable, estop,
}
use arcraven_ugv_core.Subsystems.Bridge.{
  new_bridge, join_path, attach_router, configure_paths, InitFaults, InitResult, answers, raises,
  init, BridgeFiles,
}
use arcraven_ugv_core.Config.Vehicle.{Vehicle}
use arcraven_ugv_core.Config.UgvConfig.{UgvConfig}
use arcraven_ugv_core.Config.Handlers.{register_default_command_handlers}

pub data ThreadName : Type 0 where
  estop_thread control_thread sensor_thread io_thread persist_thread : ThreadName

-- `disk` is the state file that `state_store_` names, under `state_path`.
pub record UgvCore : Type 0 where
  pub cfg : UgvConfig
  pub state_path : Bytes
  pub disk : Disk
  pub vehicle : Vehicle
  pub cmd_router : CommandRouter Vehicle
  pub threads : List ThreadName
  pub estop_thread_started : Bool

unfoldable pub new_core : UgvConfig → Disk → BridgeFiles → UgvCore
new_core cfg disk files = record {
  cfg = cfg;
  state_path = join_path cfg.data_dir (bytes "state.bin");
  disk = disk;
  vehicle = record {
    stop = not_stopped;
    estop = released;
    state = default_state;
    drives = make_drives cfg.expected_drives;
    link = configure_paths (join_path cfg.data_dir (bytes "bridge")) (attach_router new_bridge);
    files = files;
  };
  cmd_router = make (record { max_queue = 256 });
  threads = [];
  estop_thread_started = false;
}

unfoldable pub hardware_bringup : InitFaults → UgvCore → InitResult × UgvCore
hardware_bringup env core =
    let (drives_ok, drives) = init_drives core.vehicle.drives in
    let core1 : UgvCore = record core { vehicle = record core.vehicle { drives = drives } } in
    if not drives_ok
    then (answers false, core1)
    else if not init_sensors
    then (answers false, core1)
    else let (result, link, files) = init env core.vehicle.link core.vehicle.files in
      let core2 : UgvCore = record core1 {
        vehicle = record core1.vehicle { link = link; files = files };
      } in
      elim result [
        | raises ↦ (raises, core2)
        | answers ok ↦ if not ok then (answers false, core2) else (answers true, core2)
      ]

unfoldable pub start_estop_thread : UgvCore → UgvCore
start_estop_thread core = if core.estop_thread_started then core else record core {
  threads = core.threads ++ (ThreadName.estop_thread ∷ []);
  estop_thread_started = true;
}

unfoldable pub load_state : Bool → UgvCore → UgvCore
load_state opens core =
    let (ok, state) = load opens core.disk core.vehicle.state in
    record core { vehicle = record core.vehicle { state = if ok then state else default_state } }

unfoldable pub calibration_sequence : UgvCore → Bool
calibration_sequence core = true

unfoldable pub start_runtime : UgvCore → Bool × UgvCore
start_runtime core =
    let (ok, drives) = enable core.vehicle.drives in
    let core1 : UgvCore = record core { vehicle = record core.vehicle { drives = drives } } in
    if not ok then (false, core1) else (
      true,
      record core1 {
        threads =
            core1.threads
            ++ (ThreadName.control_thread ∷ ThreadName.sensor_thread ∷ ThreadName.io_thread
                ∷ ThreadName.persist_thread ∷ []);
      },
    )

-- `safe_shutdown` up to the joins.
unfoldable pub stop_drives : Vehicle → Vehicle
stop_drives v =
    let v' : Vehicle = record v { stop = request_stop v.stop } in
    record v' { drives = if latched v'.estop then estop v'.drives else disable v'.drives }

-- `state_store_.save(state_)`
unfoldable pub save_state : SaveFaults → UgvCore → SaveResult × UgvCore
save_state env core =
    let (result, disk) = save env core.vehicle.state core.disk in
    (result, record core { disk = disk })

-- `safe_shutdown` after the joins, which leave no thread.
unfoldable pub end_shutdown : SaveFaults → UgvCore → SaveResult × UgvCore
unfolding save_state
end_shutdown env core = save_state env (record core { threads = [] })

-- For threads that all end once the stop is requested.
unfoldable pub safe_shutdown : SaveFaults → UgvCore → SaveResult × UgvCore
unfolding stop_drives end_shutdown
safe_shutdown env core = end_shutdown env (record core { vehicle = stop_drives core.vehicle })

-- `state_.calibrated_ok = ok; (void)state_store_.save(state_);`
unfoldable pub save_calibrated : SaveFaults → ℕ → UgvCore → SaveResult × UgvCore
unfolding save_state
save_calibrated env ok core = save_state env (record core {
  vehicle = record core.vehicle { state = record core.vehicle.state { calibrated_ok = ok } };
})

pub data BootResult : Type 0 where
  exits : ℕ → UgvCore → BootResult  -- `return`, from `run`
  hangs : BootResult  -- the call of ARC_LOG_FATAL does not come back
  throws : BootResult  -- an exception of the link's `init` or of `save` leaves `run`
  waits : UgvCore → BootResult  -- the runtime is up, and `run` waits for the stop

-- `return code;` after a call that may throw.
unfoldable pub exit_after : ℕ → SaveResult × UgvCore → BootResult
exit_after code (thrown, core) = throws
exit_after code (returned ok, core) = exits code core

-- What the surroundings answer during the boot: one answer for each `save`.
pub record BootFaults : Type 0 where
  pub link : InitFaults
  pub state_opens : Bool
  pub saves : SaveFaults
  pub last_save : SaveFaults

module _ (fatal_returns : Bool) (safety_lockout : RejectReason) where
  unfoldable pub finish_boot : BootFaults → UgvCore → BootResult
  unfolding exit_after
  finish_boot env core =
      let core1 : UgvCore = record core {
        cmd_router = register_default_command_handlers safety_lockout core.cmd_router;
      } in
      let (ok, core2) = start_runtime core1 in
      if not ok
      then (if fatal_returns then exit_after 4 (safe_shutdown env.last_save core2) else hangs)
      else waits core2

  unfoldable pub after_save : BootFaults → SaveResult × UgvCore → BootResult
  after_save env (thrown, core) = throws
  after_save env (returned ok, core) = finish_boot env core

  unfoldable pub after_bringup : BootFaults → InitResult × UgvCore → BootResult
  after_bringup env (raises, core) = throws
  after_bringup env (answers up, core) =
      if not up
      then (if fatal_returns then exits 2 core else hangs)
      else let core2 = load_state env.state_opens (start_estop_thread core) in
        if not (calibration_sequence core2)
        then (if fatal_returns then exit_after 3 (save_calibrated env.saves 0 core2) else hangs)
        else after_save env (save_calibrated env.saves 1 core2)

  -- `run` up to its wait.
  unfoldable pub boot : BootFaults → UgvCore → BootResult
  unfolding after_bringup
  boot env core = after_bringup env (hardware_bringup env.link core)
