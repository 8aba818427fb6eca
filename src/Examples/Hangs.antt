-- ===== src/Examples/Hangs.antt =====
-- What holds of the runs of Examples/Emergency.
use arcraven_ugv_core.Common.{ℕ, ◌^◌, ◌*◌, ◌+◌, ◌≤◌, ◌≡◌, ◌⊎◌, refl, true, false}
use arcraven_ugv_core.Models.RejectReason.{RejectReason}
use arcraven_ugv_core.Core.EStopLatch.{latched}
use arcraven_ugv_core.Core.StopController.{stop_requested}
use arcraven_ugv_core.Subsystems.Stubs.{enabled}
use arcraven_ugv_core.Config.System.{control_task, main_task}
use arcraven_ugv_core.Config.System.Moves.{System, Reach, here}
use arcraven_ugv_core.Config.System.Kept.{Kept}
use arcraven_ugv_core.Config.System.Places.{Holds}
use arcraven_ugv_core.Config.System.Safety.{
  Handling, latched-stop_or_Handling, Reach-never_undone, Reach-Holds,
}
use arcraven_ugv_core.Config.System.Hangs.{is_returned, emergency_stop_hangs}
use arcraven_ugv_core.Config.System.Cut.{emergency_stop-cuts}
use arcraven_ugv_core.Config.System.Held.{held-latched}
use arcraven_ugv_core.Config.System.Bounded.{work, written, remaining}
use arcraven_ugv_core.Config.System.Progress.{GoesOn}
use arcraven_ugv_core.Config.System.Shutdown.{IsOver, stop_requested-Finishes}
use arcraven_ugv_core.Config.System.Frozen.{IsFrozen, frozen-drives}
use arcraven_ugv_core.Examples.System.{disk, frame, show, core_with, core_with-IsUp}
use arcraven_ugv_core.Examples.Process.{robot_log}
use arcraven_ugv_core.Examples.Emergency.{
  emergency_files, two_files, s0, caught, cut, frozen, frozen_later,
}

latched-stop_or_Handling_example :
    (stop_requested caught.0.mem.core.vehicle.stop ≡ true) ⊎ Handling (caught.0.pc control_task)
latched-stop_or_Handling_example =
    latched-stop_or_Handling (2 ^ 64) show RejectReason.none true disk frame robot_log
      (core_with emergency_files) (core_with-IsUp emergency_files) caught.1 caught.2

Reach-never_undone_example : Kept s0.mem.core.vehicle caught.0.mem.core.vehicle
Reach-never_undone_example =
    Reach-never_undone (2 ^ 64) show RejectReason.none true disk frame robot_log
      (core_with emergency_files) (core_with-IsUp emergency_files) here caught.1

Reach-Holds_example : Holds (frozen.0.pc main_task) frozen.0.mem.core.vehicle
Reach-Holds_example =
    (Reach-Holds (2 ^ 64) show RejectReason.none true disk frame robot_log (core_with two_files)
        (core_with-IsUp two_files) frozen.1).0
      main_task

emergency_stop_hangs_example :
    Handling (cut.0.pc control_task)
    × (is_returned (cut.0.pc main_task) ≡ false)
    × (stop_requested cut.0.mem.core.vehicle.stop ≡ stop_requested caught.0.mem.core.vehicle.stop)
emergency_stop_hangs_example =
    emergency_stop_hangs (2 ^ 64) show RejectReason.none true disk frame robot_log
      (core_with emergency_files) (core_with-IsUp emergency_files) refl caught.1 caught.2 cut.1

emergency_stop-cuts_example : enabled cut.0.mem.core.vehicle.drives ≡ false
emergency_stop-cuts_example =
    emergency_stop-cuts (2 ^ 64) show RejectReason.none true disk frame robot_log
      (core_with emergency_files) (core_with-IsUp emergency_files) refl caught.1 caught.2 caught.3
      caught.4 cut.1 cut.2

held-latched_example :
    (robot_log.cfg.flush_always ≡ true) × (latched frozen.0.mem.core.vehicle.estop ≡ true)
held-latched_example =
    held-latched (2 ^ 64) show RejectReason.none true disk frame robot_log (core_with two_files)
      (core_with-IsUp two_files) frozen.1 frozen.4.held

stop_requested-Finishes_example :
    ((u : System ℕ) (r : Reach (2 ^ 64) show frozen.0 u)
      → (work (2 ^ 64) show r ≤ remaining (2 ^ 64) show frozen.0 + 3 * written (2 ^ 64) show r)
        × (IsOver robot_log u ⊎ GoesOn (2 ^ 64) show u))
    × ((w : System ℕ) × Reach (2 ^ 64) show frozen.0 w × IsOver robot_log w)
stop_requested-Finishes_example =
    stop_requested-Finishes (2 ^ 64) show RejectReason.none true disk frame robot_log
      (core_with two_files) (core_with-IsUp two_files) frozen.0 frozen.1 frozen.2

frozen-drives_example :
    (frozen_later.0.mem.core.vehicle.drives ≡ frozen.0.mem.core.vehicle.drives)
    × IsFrozen frozen_later.0
frozen-drives_example = frozen-drives (2 ^ 64) show frozen.4 frozen_later.1
