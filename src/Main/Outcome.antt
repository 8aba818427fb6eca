-- ===== src/Main/Outcome.antt =====
-- What `main` comes to, for every answer of the file system.
use arcraven_ugv_core.Common.{◌≡◌, ◌⊎◌, Bool, true, false, List, Option, none, some, Bytes}
use arcraven_ugv_core.Models.RejectReason.{RejectReason}
use arcraven_ugv_core.Core.StateStore.{Disk, SaveResult, thrown}
use arcraven_ugv_core.Subsystems.Bridge.{BridgeFiles}
use arcraven_ugv_core.Config.UgvConfig.{default_config}
use arcraven_ugv_core.Config.Boot.{UgvCore, new_core, BootResult, BootFaults, boot}
use arcraven_ugv_core.Config.Boot.Outcome.{IsUp, sees_files, saved}
use arcraven_ugv_core.Main.{
  parse_args, ensure_writable_data_dir, MainResult, never_returns, terminates, runs,
}

module _ (safety_lockout : RejectReason) (env : BootFaults) (disk_in : Bytes → Disk)
    (files_in : Bytes → BridgeFiles) where
  -- The directory that `main` settles on, if any, and what the boot then saves.
  abbrev pub chosen_dir : List Bytes → Bool → Option Bytes → Option Bytes
  chosen_dir args opens here = ensure_writable_data_dir opens here (parse_args args)

  abbrev pub kept : Bytes → SaveResult × Disk
  kept dir = saved false safety_lockout env (default_config dir) (disk_in dir) (files_in dir)

  -- What throws on the way to the wait.
  abbrev pub Throws : Option Bytes → Option Bytes → Type 0
  Throws log_file dir =
      (log_file ≡ none)
      ⊎ ((dir ≡ none)
          ⊎ (((env.link.creates ≡ true) × (sees_files env.link ≡ false))
              ⊎ ((d : Bytes) × (dir ≡ some d) × ((kept d).0 ≡ thrown))))

  -- What is known of a result of `main`: something threw, and `main` ends by the exception; the
  -- link's directory cannot be made and `main` never returns; or the runtime is up, with the state
  -- that is under the directory.
  abbrev pub Outcome : Option Bytes → Option Bytes → MainResult → Type 0
  Outcome log_file dir r =
      ((r ≡ terminates) × Throws log_file dir)
      ⊎ (((r ≡ never_returns) × (env.link.creates ≡ false))
          ⊎ ((core : UgvCore) × (d : Bytes) × (dir ≡ some d)
              × (r ≡ runs core)
              × IsUp safety_lockout env.state_opens (disk_in d) core))

  module _ (text dir : Bytes) where
    abbrev booted : BootResult
    booted =
        boot false safety_lockout env (new_core (default_config dir) (disk_in dir) (files_in dir))
