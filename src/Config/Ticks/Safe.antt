-- ===== src/Config/Ticks/Safe.antt =====
-- The rounds of the threads against `Safely`.
use arcraven_ugv_core.Common.{
  ℕ, ◌≡◌, refl, ◌∙◌, Bool, true, false, List, [], ◌∷◌, Option, none, some, arith, Bytes, drop,
}
use arcraven_ugv_core.Stdlib.Lines.{getlines}
use arcraven_ugv_core.Command.Types.{CommandEnvelope, CommandResult}
use arcraven_ugv_core.Command.Router.{CommandRouter, submit}
use arcraven_ugv_core.Core.EStopLatch.{latched}
use arcraven_ugv_core.Core.StopController.{request_stop, stop_requested}
use arcraven_ugv_core.Subsystems.Interfaces.{SensorFrame, JointState}
use arcraven_ugv_core.Subsystems.Stubs.{estop, disable, enabled}
use arcraven_ugv_core.Subsystems.Bridge.{
  Bridge, BridgeFiles, parse_line, submit_line, pump_lines, pump_rx,
}
use arcraven_ugv_core.Config.Vehicle.{Vehicle}
use arcraven_ugv_core.Config.Handlers.Safe.{Safely, HasSafe}
use arcraven_ugv_core.Config.Boot.{stop_drives}
use arcraven_ugv_core.Config.Ticks.{
  estop_round, control_start, on_processed, sensor_round, io_round,
}

pub estop_round-Safely : (v : Vehicle) → Safely v (estop_round v)
unfolding estop_round estop request_stop latched stop_requested enabled
estop_round-Safely v = record {
  stop_kept = λ e. ground arith;
  latch_kept = λ e. ground arith;
  drives_off = λ e. ground arith;
  latch_stops = λ k e. ground (arith, k);
}

pub stop_drives-Safely : (v : Vehicle) → Safely v (stop_drives v)
unfolding stop_drives estop disable request_stop latched stop_requested enabled
stop_drives-Safely v = record {
  stop_kept = λ e. ground arith;
  latch_kept = λ e. ground arith;
  drives_off = λ e. ground arith;
  latch_stops = λ k e. ground (arith, k);
}

-- After `stop_drives` the stop is asked for and the drives are off, latched or not.
pub stop_drives-off :
    (v : Vehicle)
    → (stop_requested (stop_drives v).stop ≡ true) × (enabled (stop_drives v).drives ≡ false)
unfolding stop_drives estop disable request_stop stop_requested enabled
stop_drives-off v = (ground arith, ground arith)

-- What only writes the state, the link or the files is safe.
keeps-Safely :
    (v w : Vehicle) → w.stop ≡ v.stop → w.estop ≡ v.estop → w.drives ≡ v.drives → Safely v w
keeps-Safely v w es el ed = record {
  stop_kept = λ e. ground (arith, e, es);
  latch_kept = λ e. ground (arith, e, el);
  drives_off = λ e. ground (arith, e, ed);
  latch_stops = λ k e. ground (arith, k, e, es, el);
}

pub control_start-Safely : (v : Vehicle) → Safely v (control_start v)
unfolding control_start
control_start-Safely v = keeps-Safely v _ refl refl refl

pub on_processed-Safely :
    (p : CommandEnvelope × CommandResult) (v : Vehicle) → Safely v (on_processed p v)
unfolding on_processed
on_processed-Safely p v = keeps-Safely v _ refl refl refl

pub sensor_round-Safely :
    {D : Type 0} (show : D → Bytes) (now_ns : ℕ) (frame : SensorFrame)
    (joints : List (JointState D)) (v : Vehicle)
    → Safely v (sensor_round show now_ns frame joints v).2
unfolding sensor_round
sensor_round-Safely show now_ns frame joints v = keeps-Safely v _ refl refl refl

module _ {S : Type 0} where
  pub submit-handlers :
      (c : CommandEnvelope) (r : CommandRouter S) → (submit c r).1.handlers ≡ r.handlers
  unfolding submit
  submit-handlers c r = ground arith

  submit_line-handlers :
      (ulong : ℕ) (line : Bytes) (r : CommandRouter S)
      → (submit_line ulong line r).handlers ≡ r.handlers
  unfolding submit_line
  submit_line-handlers ulong line r = by_parse (parse_line ulong line)
    where
      by_parse :
          (o : Option CommandEnvelope)
          → let r' : CommandRouter S = elim o [ none ↦ r | some env ↦ (submit env r).1 ] in
            r'.handlers ≡ r.handlers
      by_parse none = refl
      by_parse (some env) = submit-handlers env r

  pump_lines-handlers :
      (ulong : ℕ) (lines : List Bytes) (offset : ℕ) (r : CommandRouter S)
      → (pump_lines ulong lines offset r).1.handlers ≡ r.handlers
  unfolding pump_lines
  pump_lines-handlers ulong [] offset r = refl
  pump_lines-handlers ulong (line ∷ lines) offset r =
      pump_lines-handlers ulong lines _ (submit_line ulong line r)
      ∙ submit_line-handlers ulong line r

  pump_rx-handlers :
      (ulong : ℕ) (files : BridgeFiles) (b : Bridge) (r : CommandRouter S)
      → (pump_rx ulong files b r).2.handlers ≡ r.handlers
  unfolding pump_rx
  pump_rx-handlers ulong files b r = by_file b.initialized b.attached files.commands
    where
      by_file :
          (i a : Bool) (o : Option Bytes)
          → (pump_rx ulong
              (record files { commands = o })
              (record b { initialized = i; attached = a })
              r).2.handlers
            ≡ r.handlers
      by_file false a o = refl
      by_file true false o = refl
      by_file true true none = refl
      by_file true true (some content) =
          pump_lines-handlers ulong (getlines 10 (drop b.command_offset content)) b.command_offset r

pub io_round-Safely :
    (ulong : ℕ) (r : CommandRouter Vehicle) (v : Vehicle)
    → HasSafe r
    → Safely v (io_round ulong r v).1 × HasSafe (io_round ulong r v).0
unfolding io_round
io_round-Safely ulong r v q =
    (keeps-Safely v _ refl refl refl, rw (pump_rx-handlers ulong v.files v.link r) q)
