-- ===== src/Config/System/Moves.antt =====
-- What each task of config/UgvCore.cpp can do, and the system they make up.
use arcraven_ugv_core.Common.{
  ℕ, zero, suc, ◌≡◌, ◌≢◌, Bool, true, false, List, [], ◌∷◌, ◌++◌, none, some, ◌==◌, ltb,
  if◌then◌else◌, Bytes, bytes,
}
use arcraven_ugv_core.Stdlib.Lines.{getlines}
use arcraven_ugv_core.Command.Types.{CommandEnvelope, CommandResult}
use arcraven_ugv_core.Command.Router.{CommandHandler, CommandRouter, take_front, execute, submit}
use arcraven_ugv_core.Core.EStopLatch.{exchange, store_reason, latched, reason_string}
use arcraven_ugv_core.Core.StopController.{stop_requested}
use arcraven_ugv_core.Core.StateStore.{SaveFaults, SaveResult, returned, thrown, Disk}
use arcraven_ugv_core.Subsystems.Interfaces.{SensorFrame, JointState}
use arcraven_ugv_core.Subsystems.Stubs.{estop, disable}
use arcraven_ugv_core.Subsystems.Bridge.{parse_line, line_warning}
use arcraven_ugv_core.Utils.Logger.{
  Level, info, warn, fatal, level_value, min_level, Source, Logger, log, write_line, format_line,
}
use arcraven_ugv_core.Config.Vehicle.{Vehicle}
use arcraven_ugv_core.Config.Handlers.{succeeded}
use arcraven_ugv_core.Config.Ticks.{control_start, max_n, sensor_round, persist_round}
use arcraven_ugv_core.Config.Boot.{UgvCore, end_shutdown}
use arcraven_ugv_core.Config.System.{
  Task, main_task, estop_task, control_task, sensor_task, io_task, persist_task, Pc, says, stuck,
  test, body, ended, requesting, starting, batch, storing, stopping, answered, publishing, pumping,
  submitting, waiting, shutdown, choosing, halting, joining, saving, has_returned, died, Shared,
  with_vehicle, with_router, stopped, off_line, estop_line, latched_line, is_winning, executed,
  remember, publish, processed_line, exit_line, started_line, unread, advance, says_warning,
  submits_parsed, client_write,
}

-- With the vehicle and the router that a step of the control thread leaves.
abbrev pub with_control : {D : Type 0} → CommandRouter Vehicle → Vehicle → Shared D → Shared D
with_control r v m = record m { core = record m.core { cmd_router = r; vehicle = v } }

abbrev pub with_core : {D : Type 0} → UgvCore → Shared D → Shared D
with_core core m = record m { core = core }

abbrev pub with_disk : {D : Type 0} → Disk → Shared D → Shared D
with_disk disk m = record m { core = record m.core { disk = disk } }

abbrev pub with_latch_exchanged : Vehicle → Vehicle
with_latch_exchanged v = record v { estop = (exchange v.estop).0 }

abbrev pub with_reason : Vehicle → Vehicle
with_reason v = record v { estop = store_reason (bytes "EmergencyStop command") v.estop }

abbrev pub with_estop : Vehicle → Vehicle
with_estop v = record v { drives = estop v.drives }

abbrev pub with_drives_off : Vehicle → Vehicle
with_drives_off v = record v { drives = disable v.drives }

abbrev pub after_persist : SaveResult → Pc
after_persist (returned ok) = test
after_persist thrown = died

abbrev pub after_shutdown : SaveResult → Pc
after_shutdown (returned ok) = says info (bytes "Shutdown complete") (has_returned 0)
after_shutdown thrown = died

module _ {D : Type 0} (ulong : ℕ) (show : D → Bytes) where
  -- `Move m t p m' p'`: the task `t` at `p` can turn `m` into `m'` and get to `p'`.
  pub data Move (m : Shared D) : Task → Pc → Shared D → Pc → Type 0 where
    -- A log line below the minimum, one that is written, and one whose call does not come back.
    ignores :
        {t : Task} {lvl : Level} {msg : Bytes} {k : Pc}
        → ltb (level_value lvl) (level_value (min_level m.log_state)) ≡ true
        → Move m t (says lvl msg k) m k
    logs :
        {t : Task} {lvl : Level} {msg : Bytes} {k : Pc} (stamp tid : Bytes) (source : Source)
        (l : Logger)
        → m.held ≡ false
        → log stamp tid lvl msg source m.log_state ≡ some l
        → Move m t (says lvl msg k) (record m { log_state = l }) k
    locks :
        {t : Task} {lvl : Level} {msg : Bytes} {k : Pc} (stamp tid : Bytes) (source : Source)
        → m.held ≡ false
        → log stamp tid lvl msg source m.log_state ≡ none
        → Move m t
            (says lvl msg k)
            (record m {
              log_state =
                  write_line lvl (format_line m.log_state.cfg stamp tid lvl msg source) m.log_state;
              held = true;
            })
            (stuck k)
    -- A thread's loop.
    enters : {t : Task} → stop_requested m.core.vehicle.stop ≡ false → Move m t test m body
    leaves :
        {t : Task}
        → stop_requested m.core.vehicle.stop ≡ true
        → Move m t test m (says info (exit_line t) ended)
    -- `estop_thread`
    idles : latched m.core.vehicle.estop ≡ false → Move m estop_task body m test
    cuts :
        latched m.core.vehicle.estop ≡ true
        → Move m estop_task body
            (with_vehicle (with_estop m.core.vehicle) m)
            (says fatal estop_line requesting)
    asks : Move m estop_task requesting (with_vehicle (stopped m.core.vehicle) m) test
    -- `control_thread`
    prepares : Move m control_task starting (with_vehicle (control_start m.core.vehicle) m) test
    skips : latched m.core.vehicle.estop ≡ true → Move m control_task body m test
    begins : latched m.core.vehicle.estop ≡ false → Move m control_task body m (batch max_n)
    fills : Move m control_task (batch zero) m test
    finds_none :
        {n : ℕ} → take_front m.core.cmd_router ≡ none → Move m control_task (batch (suc n)) m test
    serves :
        {n : ℕ} (now_ns : ℕ) (c : CommandEnvelope) (h : CommandHandler Vehicle)
        (r : CommandRouter Vehicle) (res : CommandResult) (v : Vehicle)
        → take_front m.core.cmd_router ≡ some (c, h, r)
        → is_winning now_ns c m.core.vehicle ≡ false
        → execute now_ns c h m.core.vehicle ≡ (res, v)
        → Move m control_task (batch (suc n)) (with_control r v m) (executed n c res)
    -- The EmergencyStop that wins the exchange, in its five steps.
    latches :
        {n : ℕ} (now_ns : ℕ) (c : CommandEnvelope) (h : CommandHandler Vehicle)
        (r : CommandRouter Vehicle)
        → take_front m.core.cmd_router ≡ some (c, h, r)
        → is_winning now_ns c m.core.vehicle ≡ true
        → Move m control_task
            (batch (suc n))
            (with_control r (with_latch_exchanged m.core.vehicle) m)
            (storing n c)
    stores :
        {n : ℕ} {c : CommandEnvelope}
        → Move m control_task
            (storing n c)
            (with_vehicle (with_reason m.core.vehicle) m)
            (says fatal (latched_line (with_reason m.core.vehicle)) (stopping n c))
    stops :
        {n : ℕ} {c : CommandEnvelope}
        → Move m control_task
            (stopping n c)
            (with_vehicle (stopped m.core.vehicle) m)
            (answered n (c, succeeded (bytes "estop latched")))
    remembers :
        {n : ℕ} {p : CommandEnvelope × CommandResult}
        → Move m control_task
            (answered n p)
            (with_vehicle (remember p m.core.vehicle) m)
            (says info (processed_line p) (publishing n p))
    publishes :
        {n : ℕ} {p : CommandEnvelope × CommandResult}
        → Move m control_task (publishing n p) (with_vehicle (publish p m.core.vehicle) m) (batch n)
    -- `sensor_thread`
    senses :
        (now_ns : ℕ) (frame : SensorFrame) (joints : List (JointState D)) (v : Vehicle)
        → sensor_round show now_ns m.frame m.joints m.core.vehicle ≡ (frame, joints, v)
        → Move m sensor_task body
            (record m { core = record m.core { vehicle = v }; frame = frame; joints = joints })
            test
    -- `io_thread`
    opens :
        Move m io_task body m
          (pumping (getlines 10 (unread m.core.vehicle.files m.core.vehicle.link)))
    reads :
        {line : Bytes} {lines : List Bytes}
        → Move m io_task
            (pumping (line ∷ lines))
            (with_vehicle (advance line m.core.vehicle) m)
            (says_warning (line_warning ulong line) (submits_parsed (parse_line ulong line) lines))
    submits :
        {env : CommandEnvelope} {lines : List Bytes}
        → Move m io_task
            (submitting env lines)
            (with_router (submit env m.core.cmd_router).1 m)
            (pumping lines)
    pumped : Move m io_task (pumping []) m test
    -- `persist_thread`
    persists :
        (env : SaveFaults) (result : SaveResult) (disk : Disk)
        → persist_round env m.core.vehicle m.core.disk ≡ (result, disk)
        → Move m persist_task body (with_disk disk m) (after_persist result)
    -- `run`, and `safe_shutdown` but for its joins
    wakes :
        stop_requested m.core.vehicle.stop ≡ true
        → Move m main_task waiting m (says warn (bytes "Shutdown requested") shutdown)
    requests : Move m main_task shutdown (with_vehicle (stopped m.core.vehicle) m) choosing
    warns :
        latched m.core.vehicle.estop ≡ true
        → Move m main_task choosing m (
            says warn
              (bytes "Shutdown while E-STOP latched: " ++ reason_string m.core.vehicle.estop)
              halting)
    halts :
        Move m main_task halting
          (with_vehicle (with_estop m.core.vehicle) m)
          (says fatal estop_line joining)
    disables :
        latched m.core.vehicle.estop ≡ false
        → Move m main_task choosing
            (with_vehicle (with_drives_off m.core.vehicle) m)
            (says warn off_line joining)
    finishes :
        (env : SaveFaults) (result : SaveResult) (core : UgvCore)
        → end_shutdown env m.core ≡ (result, core)
        → Move m main_task saving (with_core core m) (after_shutdown result)

abbrev task_number : Task → ℕ
task_number main_task = 0
task_number estop_task = 1
task_number control_task = 2
task_number sensor_task = 3
task_number io_task = 4
task_number persist_task = 5

abbrev pub at : (Task → Pc) → Task → Pc → Task → Pc
at f t p u = if task_number u == task_number t then p else f u

pub record System (D : Type 0) : Type 0 where
  pub mem : Shared D
  pub pc : Task → Pc

abbrev pub is_worker : Task → Bool
is_worker main_task = false
is_worker t = true

abbrev pub WorkersEnded : (Task → Pc) → Type 0
WorkersEnded f = (t : Task) → is_worker t ≡ true → f t ≡ ended

module _ {D : Type 0} (ulong : ℕ) (show : D → Bytes) where
  -- Once a task has died, the process is no more.
  pub data Step (s : System D) : System D → Type 0 where
    moves :
        {t : Task} {m : Shared D} {p : Pc}
        → ((u : Task) → s.pc u ≢ died)
        → Move ulong show s.mem t (s.pc t) m p
        → Step s (record { mem = m; pc = at s.pc t p })
    joins :
        s.pc main_task ≡ joining
        → WorkersEnded s.pc
        → Step s (record s { pc = at s.pc main_task saving })
    writes :
        (text : Bytes)
        → Step s (record s { mem = with_vehicle (client_write text s.mem.core.vehicle) s.mem })

  pub data Reach (s : System D) : System D → Type 0 where
    here : Reach s s
    next : {t u : System D} → Reach s t → Step t u → Reach s u

abbrev pub first_pc : Task → Pc
first_pc main_task = waiting
first_pc control_task = says info (started_line control_task) starting
first_pc t = says info (started_line t) test

-- After `start_runtime`, before the first line of any thread.
abbrev pub start : {D : Type 0} → SensorFrame → Logger → UgvCore → System D
start frame l core = record {
  mem = record { core = core; frame = frame; joints = []; log_state = l; held = false };
  pc = first_pc;
}
