-- ===== src/Config/Runtime.antt =====
-- The threads of config/UgvCore.cpp side by side, from the return of `start_runtime` to the end of
-- `run`. A thread stands before the test of the stop flag, in its loop's body, or has ended. One
-- step is one test of the flag; one round of the emergency-stop, sensor, IO or persist thread; one
-- command of a control round; or one part of what `run` does after its wait. Sleeps are left out:
-- a thread may take any time for a step. So are log lines: this is the program with a logger whose
-- fatal calls come back; Config.System has the log lines, and any logger.
pub mod Safety
pub mod Progress
pub mod Shutdown
pub mod Batch
use arcraven_ugv_core.Common.{
  ℕ, zero, suc, ◌≡◌, Bool, true, false, List, [], Option, none, some, Bytes, ◌==◌, if◌then◌else◌,
}
use arcraven_ugv_core.Command.Types.{CommandEnvelope, CommandResult}
use arcraven_ugv_core.Command.Router.{CommandRouter, process_one}
use arcraven_ugv_core.Core.EStopLatch.{latched}
use arcraven_ugv_core.Core.StopController.{stop_requested}
use arcraven_ugv_core.Core.StateStore.{Disk, SaveFaults, SaveResult, returned, thrown}
use arcraven_ugv_core.Subsystems.Interfaces.{SensorFrame, JointState}
use arcraven_ugv_core.Config.Vehicle.{Vehicle}
use arcraven_ugv_core.Config.Boot.{
  ThreadName, estop_thread, control_thread, sensor_thread, io_thread, persist_thread, UgvCore,
  stop_drives, end_shutdown,
}
use arcraven_ugv_core.Config.Ticks.{
  estop_round, control_start, on_processed, max_n, sensor_round, io_round, persist_round,
}

pub data Phase : Type 0 where
  starting : Phase  -- before the loop
  test : Phase
  body : Phase
  batch : ℕ → Phase  -- in `process_some`, with so many commands still to take
  ended : Phase

pub data MainPhase : Type 0 where
  waiting : MainPhase
  joining : MainPhase
  has_returned : ℕ → MainPhase
  died : MainPhase  -- std::terminate, after an exception of `save`

-- `frame` and `joints` are the variables of `sensor_thread`.
pub record Runtime (D : Type 0) : Type 0 where
  pub core : UgvCore
  pub frame : SensorFrame
  pub joints : List (JointState D)
  pub phase : ThreadName → Phase
  pub main : MainPhase

-- The threads run while `run` does.
abbrev pub is_running : MainPhase → Bool
is_running waiting = true
is_running joining = true
is_running (has_returned code) = false
is_running died = false

abbrev pub thread_number : ThreadName → ℕ
thread_number estop_thread = 0
thread_number control_thread = 1
thread_number sensor_thread = 2
thread_number io_thread = 3
thread_number persist_thread = 4

abbrev pub at : (ThreadName → Phase) → ThreadName → Phase → ThreadName → Phase
at f t p u = if thread_number u == thread_number t then p else f u

abbrev pub with_vehicle : Vehicle → UgvCore → UgvCore
with_vehicle v core = record core { vehicle = v }

-- A thread's answer to an exception of `save`.
abbrev pub after_persist : SaveResult → MainPhase → MainPhase
after_persist (returned ok) main = main
after_persist thrown main = died

abbrev pub after_shutdown : SaveResult → MainPhase
after_shutdown (returned ok) = has_returned 0
after_shutdown thrown = died

module _ {D : Type 0} (ulong : ℕ) (show : D → Bytes) where
  -- What a thread can do.
  pub data Tick (s : Runtime D) : Runtime D → Type 0 where
    enters :
        (t : ThreadName)
        → s.phase t ≡ test
        → stop_requested s.core.vehicle.stop ≡ false
        → Tick s (record s { phase = at s.phase t body })
    leaves :
        (t : ThreadName)
        → s.phase t ≡ test
        → stop_requested s.core.vehicle.stop ≡ true
        → Tick s (record s { phase = at s.phase t ended })
    checks_estop :
        s.phase estop_thread ≡ body
        → Tick s (record s {
          core = with_vehicle (estop_round s.core.vehicle) s.core;
          phase = at s.phase estop_thread test;
        })
    starts_control :
        s.phase control_thread ≡ starting
        → Tick s (record s {
          core = with_vehicle (control_start s.core.vehicle) s.core;
          phase = at s.phase control_thread test;
        })
    skips_batch :
        s.phase control_thread ≡ body
        → latched s.core.vehicle.estop ≡ true
        → Tick s (record s { phase = at s.phase control_thread test })
    begins_batch :
        s.phase control_thread ≡ body
        → latched s.core.vehicle.estop ≡ false
        → Tick s (record s { phase = at s.phase control_thread (batch max_n) })
    serves :
        (now_ns n : ℕ) (p : CommandEnvelope × CommandResult) (r : CommandRouter Vehicle)
        (v : Vehicle)
        → s.phase control_thread ≡ batch (suc n)
        → process_one now_ns s.core.cmd_router s.core.vehicle ≡ (some p, r, v)
        → Tick s (record s {
          core = record s.core { cmd_router = r; vehicle = on_processed p v };
          phase = at s.phase control_thread (batch n);
        })
    finds_none :
        (now_ns n : ℕ) (r : CommandRouter Vehicle) (v : Vehicle)
        → s.phase control_thread ≡ batch (suc n)
        → process_one now_ns s.core.cmd_router s.core.vehicle ≡ (none, r, v)
        → Tick s (record s {
          core = record s.core { cmd_router = r; vehicle = v };
          phase = at s.phase control_thread test;
        })
    ends_batch :
        s.phase control_thread ≡ batch zero
        → Tick s (record s { phase = at s.phase control_thread test })
    senses :
        (now_ns : ℕ) (frame : SensorFrame) (joints : List (JointState D)) (v : Vehicle)
        → s.phase sensor_thread ≡ body
        → sensor_round show now_ns s.frame s.joints s.core.vehicle ≡ (frame, joints, v)
        → Tick s (record s {
          core = with_vehicle v s.core;
          frame = frame;
          joints = joints;
          phase = at s.phase sensor_thread test;
        })
    pumps :
        (r : CommandRouter Vehicle) (v : Vehicle)
        → s.phase io_thread ≡ body
        → io_round ulong s.core.cmd_router s.core.vehicle ≡ (r, v)
        → Tick s (record s {
          core = record s.core { cmd_router = r; vehicle = v };
          phase = at s.phase io_thread test;
        })
    persists :
        (env : SaveFaults) (result : SaveResult) (disk : Disk)
        → s.phase persist_thread ≡ body
        → persist_round env s.core.vehicle s.core.disk ≡ (result, disk)
        → Tick s (record s {
          core = record s.core { disk = disk };
          phase = at s.phase persist_thread test;
          main = after_persist result s.main;
        })

  pub data Step (s : Runtime D) : Runtime D → Type 0 where
    ticks : {u : Runtime D} → is_running s.main ≡ true → Tick s u → Step s u
    stops :
        s.main ≡ waiting
        → stop_requested s.core.vehicle.stop ≡ true
        → Step s
            (record s { core = with_vehicle (stop_drives s.core.vehicle) s.core; main = joining })
    finishes :
        (env : SaveFaults) (result : SaveResult) (core : UgvCore)
        → s.main ≡ joining
        → ((t : ThreadName) → s.phase t ≡ ended)
        → end_shutdown env s.core ≡ (result, core)
        → Step s (record s { core = core; main = after_shutdown result })

  pub data Reach (s : Runtime D) : Runtime D → Type 0 where
    here : Reach s s
    next : {t u : Runtime D} → Reach s t → Step t u → Reach s u

abbrev pub first_phase : ThreadName → Phase
first_phase control_thread = starting
first_phase t = test

-- After `start_runtime`, whatever the emergency-stop thread has done so far in its empty rounds.
abbrev pub start : {D : Type 0} → SensorFrame → UgvCore → Runtime D
start frame core = record {
  core = core;
  frame = frame;
  joints = [];
  phase = first_phase;
  main = waiting;
}
