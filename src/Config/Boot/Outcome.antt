-- ===== src/Config/Boot/Outcome.antt =====
-- How `run` gets to its wait, or does not.
use arcraven_ugv_core.Common.{
  ◌≡◌, refl, ◌∙◌, ap, Bool, true, false, ◌&&◌, List, [], ◌∷◌, if◌then◌else◌, arith, Bytes, bytes,
}
use arcraven_ugv_core.Models.RejectReason.{RejectReason}
use arcraven_ugv_core.Command.Router.{make}
use arcraven_ugv_core.Core.StateStore.{
  PersistentStateV1, default_state, Disk, load, SaveResult, returned, thrown, save,
}
use arcraven_ugv_core.Core.StopController.{stop_requested}
use arcraven_ugv_core.Core.EStopLatch.{latched}
use arcraven_ugv_core.Subsystems.Stubs.{init_drives, init_sensors, enable, enabled}
use arcraven_ugv_core.Subsystems.Bridge.{
  InitFaults, InitResult, answers, raises, init, Bridge, BridgeFiles, join_path, is_empty,
  create_missing, configure_paths, attach_router,
}
use arcraven_ugv_core.Config.UgvConfig.{UgvConfig}
use arcraven_ugv_core.Config.Handlers.{register_default_command_handlers}
use arcraven_ugv_core.Config.Boot.{
  ThreadName, UgvCore, new_core, hardware_bringup, start_estop_thread, load_state,
  calibration_sequence, start_runtime, save_calibrated, exits, hangs, throws, waits, BootFaults,
  finish_boot, after_save, after_bringup, boot,
}

-- The state that the boot starts from: the stored one, or a fresh one.
abbrev pub booted_state : Bool → Disk → PersistentStateV1
booted_state opens disk =
    let (ok, state) = load opens disk default_state in if ok then state else default_state

join_path-full : (dir name : Bytes) → is_empty name ≡ false → is_empty (join_path dir name) ≡ false
unfolding join_path
join_path-full [] name h = h
join_path-full (c ∷ []) name h = ground arith
join_path-full (c ∷ b ∷ dir) name h = refl

-- Whether `exists` answers for both files.
abbrev pub sees_files : InitFaults → Bool
sees_files env = env.sees_commands && env.sees_telemetry

-- A core whose link has its two paths, with its other parts given.
module _ (env : InitFaults) (core : UgvCore)
    (has_commands : is_empty core.vehicle.link.command_path ≡ false)
    (has_telemetry : is_empty core.vehicle.link.telemetry_path ≡ false) where
  -- The core once the link is `out`.
  abbrev brought : InitResult × Bridge × BridgeFiles → InitResult × UgvCore
  brought out =
      (out.0, record core { vehicle = record core.vehicle { link = out.1; files = out.2 } })

  -- The link decides what comes of the bring-up.
  bringup_as :
      (result : InitResult)
      → (init env core.vehicle.link core.vehicle.files).0 ≡ result
      → hardware_bringup env core ≡ brought (init env core.vehicle.link core.vehicle.files)
  unfolding hardware_bringup init_drives init_sensors
  bringup_as raises e = rw e refl
  bringup_as (answers true) e = rw e refl
  bringup_as (answers false) e = rw e refl

  bringup_lem :
      (out : InitResult × Bridge × BridgeFiles)
      → init env core.vehicle.link core.vehicle.files ≡ out
      → hardware_bringup env core ≡ brought out
  bringup_lem out e = bringup_as _ refl ∙ ap brought e

  bringup_fails : env.creates ≡ false → hardware_bringup env core ≡ (answers false, core)
  bringup_fails e = bringup_lem _ (unfold init in rw (has_commands, has_telemetry, e) refl)

  bringup_raises :
      env.creates ≡ true → sees_files env ≡ false → (hardware_bringup env core).0 ≡ raises
  bringup_raises e h =
      ap (λ out. out.0) (bringup_lem _ refl)
      ∙ (unfold init in rw (has_commands, has_telemetry, e) (ground arith))

  abbrev brought_up : UgvCore
  brought_up = record core {
    vehicle = record core.vehicle {
      link = record core.vehicle.link { initialized = true };
      files = record core.vehicle.files {
        commands = create_missing env.makes_commands core.vehicle.files.commands;
        telemetry = create_missing env.makes_telemetry core.vehicle.files.telemetry;
      };
    };
  }

  bringup_succeeds :
      env.creates ≡ true
      → sees_files env ≡ true
      → hardware_bringup env core ≡ (answers true, brought_up)
  bringup_succeeds e h =
      let seen : (env.sees_commands ≡ true) × (env.sees_telemetry ≡ true) = ground arith in
      bringup_lem _ (unfold init in rw (has_commands, has_telemetry, e, seen.0, seen.1) refl)

abbrev pub all_threads : List ThreadName
all_threads =
    ThreadName.estop_thread ∷ ThreadName.control_thread ∷ ThreadName.sensor_thread
    ∷ ThreadName.io_thread ∷ ThreadName.persist_thread ∷ []

-- The state of the vehicle when calibration has succeeded.
abbrev pub calibrated : Bool → Disk → PersistentStateV1
calibrated opens disk = record (booted_state opens disk) { calibrated_ok = 1 }

-- The core that waits: every thread started, the drives on and no stop asked for, the state marked
-- as calibrated, and the default handlers in an otherwise empty router.
pub record IsUp (s : RejectReason) (opens : Bool) (disk : Disk) (core : UgvCore) : Type 0 where
  pub started : core.threads ≡ all_threads
  pub on : enabled core.vehicle.drives ≡ true
  pub unstopped : stop_requested core.vehicle.stop ≡ false
  pub unlatched : latched core.vehicle.estop ≡ false
  pub state : core.vehicle.state ≡ calibrated opens disk
  pub linked : core.vehicle.link.initialized ≡ true
  pub routed :
      core.cmd_router ≡ register_default_command_handlers s (make (record { max_queue = 256 }))

module _ (f : Bool) (s : RejectReason) (env : BootFaults) (cfg : UgvConfig) (disk : Disk)
    (files : BridgeFiles) where
  abbrev fresh_core : UgvCore
  fresh_core = new_core cfg disk files

  command_path-full : is_empty fresh_core.vehicle.link.command_path ≡ false
  unfolding new_core configure_paths
  command_path-full =
      join_path-full (join_path cfg.data_dir (bytes "bridge")) (bytes "commands.in") refl

  telemetry_path-full : is_empty fresh_core.vehicle.link.telemetry_path ≡ false
  unfolding new_core configure_paths
  telemetry_path-full =
      join_path-full (join_path cfg.data_dir (bytes "bridge")) (bytes "telemetry.out") refl

  abbrev ready : UgvCore
  ready =
      load_state env.state_opens
        (start_estop_thread (brought_up env.link fresh_core command_path-full telemetry_path-full))

  ready_state : ready.vehicle.state ≡ booted_state env.state_opens disk
  unfolding load_state start_estop_thread new_core
  ready_state = refl

  boot_down :
      env.link.creates ≡ false → boot f s env fresh_core ≡ (if f then exits 2 fresh_core else hangs)
  unfolding boot after_bringup
  boot_down e = rw (bringup_fails env.link fresh_core command_path-full telemetry_path-full e) refl

  after_raised :
      (result : InitResult) (core : UgvCore)
      → result ≡ raises
      → after_bringup f s env (result, core) ≡ throws
  unfolding after_bringup
  after_raised result core e = rw e refl

  boot_raised :
      env.link.creates ≡ true → sees_files env.link ≡ false → boot f s env fresh_core ≡ throws
  unfolding boot
  boot_raised e h =
      after_raised _ _
        (bringup_raises env.link fresh_core command_path-full telemetry_path-full e h)

  boot_on :
      env.link.creates ≡ true
      → sees_files env.link ≡ true
      → boot f s env fresh_core ≡ after_save f s env (save_calibrated env.saves 1 ready)
  unfolding boot after_bringup calibration_sequence
  boot_on e h =
      rw (bringup_succeeds env.link fresh_core command_path-full telemetry_path-full e h) refl

  -- What `boot` saves: the calibrated state, over the disk as it was.
  abbrev pub saved : SaveResult × Disk
  saved = save env.saves (calibrated env.state_opens disk) disk

  abbrev settled : UgvCore
  settled = record ready {
    vehicle = record ready.vehicle { state = calibrated env.state_opens disk };
    disk = saved.1;
  }

  save_ready : save_calibrated env.saves 1 ready ≡ (saved.0, settled)
  unfolding save_calibrated load_state start_estop_thread new_core
  save_ready = refl

  up_core : UgvCore
  up_core =
      (start_runtime
        (record settled { cmd_router = register_default_command_handlers s settled.cmd_router })).1

  up_core-IsUp : IsUp s env.state_opens disk up_core × (up_core.disk ≡ saved.1)
  unfolding up_core start_runtime enable enabled load_state start_estop_thread new_core
      stop_requested latched make configure_paths attach_router
  up_core-IsUp = (
    record {
      started = refl;
      on = refl;
      unstopped = refl;
      unlatched = refl;
      state = refl;
      linked = refl;
      routed = refl;
    },
    refl,
  )

  no_threads : fresh_core.threads ≡ []
  unfolding new_core
  no_threads = refl

  after_thrown :
      (core : UgvCore) (result : SaveResult)
      → result ≡ thrown
      → after_save f s env (result, core) ≡ throws
  unfolding after_save
  after_thrown core result t = rw t refl

  after_returned :
      (ok : Bool) (result : SaveResult)
      → result ≡ returned ok
      → after_save f s env (result, settled) ≡ waits up_core
  unfolding after_save finish_boot start_runtime enable up_core
  after_returned ok result t = rw t refl

  boot_saved :
      env.link.creates ≡ true
      → sees_files env.link ≡ true
      → boot f s env fresh_core ≡ after_save f s env (saved.0, settled)
  boot_saved e h = boot_on e h ∙ ap (after_save f s env) save_ready

  -- A boot that cannot make the link's directory returns 2, or hangs on its fatal log line; no thread
  -- was started. Where the file system cannot say whether the link's files are there, its exception
  -- leaves `run`. Otherwise the calibrated state is saved: an exception of `save` leaves `run`; any
  -- other answer, a failure too, is passed over, and the runtime is up.
  pub boot_outcomes :
      ((env.link.creates ≡ false)
        → (fresh_core.threads ≡ [])
          × (boot f s env fresh_core ≡ (if f then exits 2 fresh_core else hangs)))
      × ((env.link.creates ≡ true)
          → (sees_files env.link ≡ false)
          → boot f s env fresh_core ≡ throws)
      × ((env.link.creates ≡ true)
          → (sees_files env.link ≡ true)
          → ((saved.0 ≡ thrown) → boot f s env fresh_core ≡ throws)
            × ((ok : Bool)
                → saved.0 ≡ returned ok
                → (core : UgvCore) × (boot f s env fresh_core ≡ waits core)
                  × IsUp s env.state_opens disk core
                  × (core.disk ≡ saved.1)))
  boot_outcomes = (
    (λ e. (no_threads, boot_down e)),
    boot_raised,
    (λ e h. (
      (λ t. boot_saved e h ∙ after_thrown _ _ t),
      (λ ok r. (up_core, boot_saved e h ∙ after_returned ok _ r, up_core-IsUp.0, up_core-IsUp.1)),
    )),
  )
