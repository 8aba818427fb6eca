-- ===== src/Main.antt =====
-- main.cpp, without its log lines, which all come back; memory and threads are taken to be had. A
-- path is its bytes. `opens` is whether the probe file can be opened, `here` the current directory,
-- unless `current_path` throws, `log_file` the text of robot.log, if it can be opened. `disk_in` and
-- `files_in` are the state file and the bridge's files under a data directory.
pub mod Arguments
pub mod Outcome
use arcraven_ugv_core.Common.{
  ℕ, Bool, true, false, ◌&&◌, List, [], ◌∷◌, Option, none, some, ◌==◌, not, if◌then◌else◌, Bytes,
  bytes,
}
use arcraven_ugv_core.Models.RejectReason.{RejectReason}
use arcraven_ugv_core.Core.StateStore.{Disk}
use arcraven_ugv_core.Subsystems.Bridge.{BridgeFiles}
use arcraven_ugv_core.Utils.Logger.{Config, info, Logger, new_logger}
use arcraven_ugv_core.Config.UgvConfig.{UgvConfig, default_config}
use arcraven_ugv_core.Config.Boot.{
  UgvCore, new_core, BootResult, BootFaults, boot, exits, hangs, throws, waits,
}

unfoldable pub is_same : Bytes → Bytes → Bool
is_same [] [] = true
is_same (a ∷ s) (b ∷ t) = a == b && is_same s t
is_same _ _ = false

abbrev pub data_dir_flag : Bytes
data_dir_flag = bytes "--data-dir"

-- The loop over the arguments behind the program's name.
unfoldable pub parse_loop : List Bytes → Bytes → Bytes
unfolding is_same
parse_loop [] data_dir = data_dir
parse_loop (arg ∷ []) data_dir = data_dir
parse_loop (arg ∷ value ∷ rest) data_dir = elim (is_same arg data_dir_flag) [
  | true ↦ parse_loop rest value
  | false ↦ parse_loop (value ∷ rest) data_dir
]

abbrev pub default_data_dir : Bytes
default_data_dir = bytes "/var/lib/arcraven-ugv"

unfoldable pub parse_args : List Bytes → Bytes
parse_args [] = default_data_dir
parse_args (program ∷ args) = parse_loop args default_data_dir

-- `none` is an exception.
unfoldable pub ensure_writable_data_dir : Bool → Option Bytes → Bytes → Option Bytes
ensure_writable_data_dir opens here desired = if opens then some desired else here

-- What `main` hands to `init_logger`.
abbrev pub main_logger_config : Config
main_logger_config = record {
  min_level = info;
  file_path = some (bytes "robot.log");
  console = true;
  ansi_colors = false;
  flush_always = true;
  include_thread_id = true;
  include_source = true;
}

pub data MainResult : Type 0 where
  returns : ℕ → MainResult  -- `return rc;`
  never_returns : MainResult  -- a call of ARC_LOG_FATAL does not come back
  terminates : MainResult  -- an exception leaves `main`
  runs : UgvCore → MainResult  -- `run` waits for the stop, beside its threads

-- `const int rc = core.run();` up to the wait, and what follows it.
unfoldable pub after_run : BootResult → MainResult
after_run (exits rc core) = returns rc
after_run hangs = never_returns
after_run throws = terminates
after_run (waits core) = runs core

-- A fatal line comes back unless every line is flushed.
module _ (safety_lockout : RejectReason) (env : BootFaults) (disk_in : Bytes → Disk)
    (files_in : Bytes → BridgeFiles) where
  unfoldable pub main : List Bytes → Option Bytes → Bool → Option Bytes → MainResult
  main args log_file opens here = elim (new_logger main_logger_config [] log_file) [
    | none ↦ terminates
    | some l ↦ elim (ensure_writable_data_dir opens here (parse_args args)) [
      | none ↦ terminates
      | some data_dir ↦ after_run (
          boot (not l.cfg.flush_always) safety_lockout env
            (new_core (default_config data_dir) (disk_in data_dir) (files_in data_dir)))
    ]
  ]
