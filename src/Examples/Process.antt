-- ===== src/Examples/Process.antt =====
-- The log and the command line.
use arcraven_ugv_core.Common.{
  ℕ, true, false, ◌≡◌, refl, List, [], ◌∷◌, ◌++◌, none, some, Bytes, bytes, arith, map,
}
use arcraven_ugv_core.Stdlib.Lines.{getlines}
use arcraven_ugv_core.Utils.Logger.{
  Level, info, debug, warn, fatal, level_value, level_tag, Logger, log, source_part,
}
use arcraven_ugv_core.Utils.Logger.Lines.{
  Entry, entry_text, kept, is_kept, log_all, log-none_iff, log_all-lines,
}
use arcraven_ugv_core.Models.RejectReason.{RejectReason}
use arcraven_ugv_core.Core.StateStore.{Disk, SaveFaults}
use arcraven_ugv_core.Subsystems.Stubs.{make_drives, enabled, drive_system}
use arcraven_ugv_core.Subsystems.Stubs.Contract.{
  DriveCall, inits, enables, estops, reads, asked_on, call_all, drive_system-asked_on,
}
use arcraven_ugv_core.Subsystems.Bridge.{BridgeFiles}
use arcraven_ugv_core.Utils.Logger.Stamp.{
  LocalTime, now_local_iso8601, read_stamp, read_stamp-now_local_iso8601,
}
use arcraven_ugv_core.Config.Boot.{BootFaults}
use arcraven_ugv_core.Main.Outcome.{Outcome}
use arcraven_ugv_core.Main.{parse_args, default_data_dir, main_logger_config, is_same}
use arcraven_ugv_core.Main.Arguments.{Item, sets, other, words, chosen, parse_args-chosen}

abbrev pub robot_log : Logger
robot_log = record {
  cfg = main_logger_config;
  cerr = [];
  file = some (record { text = bytes "old" ++ (10 ∷ []); pending = [] });
  min_level_now = info;
}

log-none_iff_example :
    log (bytes "now") (bytes "1") fatal (bytes "Hardware bring-up failed") (none, 0) robot_log
    ≡ none
log-none_iff_example =
    (log-none_iff (bytes "now") (bytes "1") (bytes "Hardware bring-up failed") fatal (none, 0)
        robot_log).1
      (refl, refl)

abbrev entry : Level → Bytes → Entry
entry lvl msg = record {
  stamp = bytes "now";
  tid = bytes "1";
  lvl = lvl;
  msg = msg;
  source = (none, 0);
}

abbrev entries : List Entry
entries = entry info (bytes "start") ∷ entry debug (bytes "hidden") ∷ entry warn (bytes "stop") ∷ []

log_all-lines_example :
    (l : Logger) × (added : Bytes) × (log_all entries robot_log ≡ some l)
    × (l.file ≡ some (record { text = (bytes "old" ++ (10 ∷ [])) ++ added; pending = [] }))
    × (getlines 10 added ≡ map (entry_text main_logger_config) (kept info entries))
unfolding entry_text kept is_kept level_value level_tag source_part
log_all-lines_example =
    log_all-lines entries robot_log (bytes "old" ++ (10 ∷ [])) refl refl
      ((λ e. cc), ((λ e. cc), ((λ e. cc), tt))) (ground arith)

abbrev items : List Item
items = other (bytes "-v") ∷ sets (bytes "/a") ∷ sets (bytes "/b") ∷ []

parse_args-chosen_example :
    (parse_args (bytes "ugv" ∷ words items []) ≡ chosen default_data_dir items)
    × (parse_args (bytes "ugv" ∷ words items (bytes "--data-dir" ∷ []))
        ≡ chosen default_data_dir items)
unfolding is_same
parse_args-chosen_example = parse_args-chosen (bytes "ugv") items (refl, (tt, (tt, tt)))

abbrev save_faults : SaveFaults
save_faults = record {
  creates = true;
  opens = true;
  written = 28;
  renames = true;
  removes = true;
  renames_again = true;
}

abbrev faults : BootFaults
faults = record {
  link = record {
    creates = true;
    sees_commands = true;
    sees_telemetry = true;
    makes_commands = true;
    makes_telemetry = true;
  };
  state_opens = false;
  saves = save_faults;
  last_save = save_faults;
}

abbrev disk_in : Bytes → Disk
disk_in dir = record { file = none; tmp = none }

abbrev files_in : Bytes → BridgeFiles
files_in dir = record { commands = none; telemetry = none; appends = λ n. some 4096; opened = 0 }

abbrev args : List Bytes
args = bytes "ugv" ∷ bytes "--data-dir" ∷ bytes "/d" ∷ []

abbrev local_time : LocalTime
local_time = record {
  tm_year = 124;
  tm_mon = 1;
  tm_mday = 29;
  tm_hour = 23;
  tm_min = 5;
  tm_sec = 60;
}

read_stamp-now_local_iso8601_example :
    read_stamp (now_local_iso8601 local_time 1709247960007) ≡ (some 2024, ((2, 29, 23), (5, 60, 7)))
read_stamp-now_local_iso8601_example =
    read_stamp-now_local_iso8601 local_time 1709247960007 (record {
      year = omega arith;
      mon = omega arith;
      mday = omega arith;
      hour = omega arith;
      min = omega arith;
      sec = omega arith;
    })

abbrev calls : List (DriveCall ℕ)
calls = inits ∷ estops ∷ reads [] ∷ enables ∷ []

drive_system-asked_on_example :
    enabled (call_all drive_system calls (make_drives 8)) ≡ asked_on false calls
drive_system-asked_on_example = drive_system-asked_on calls (make_drives 8)
