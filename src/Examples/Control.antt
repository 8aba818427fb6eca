-- ===== src/Examples/Control.antt =====
-- A control round with a full batch behind an EmergencyStop, and threads that trigger it at once.
use arcraven_ugv_core.Common.{ℕ, ◌≡◌, refl, true, [], ◌∷◌, none, some, Bytes}
use arcraven_ugv_core.Models.UgvCommand.{UgvCommand}
use arcraven_ugv_core.Models.CommandAuthority.{CommandAuthority, value as authority_value}
use arcraven_ugv_core.Models.RejectReason.{RejectReason}
use arcraven_ugv_core.Command.Types.{CommandEnvelope, CommandResult, default_envelope, is_expired}
use arcraven_ugv_core.Command.Router.{CommandRouter, callable, make, find, key}
use arcraven_ugv_core.Core.EStopLatch.{released, exchange, store_reason, latched}
use arcraven_ugv_core.Core.EStopLatch.Threads.{
  done, Threads, wins, loses, stores, Reach, here, next, start, reason_kept,
}
use arcraven_ugv_core.Core.StopController.{not_stopped, stop_requested}
use arcraven_ugv_core.Core.StateStore.{default_state}
use arcraven_ugv_core.Subsystems.Stubs.{enabled}
use arcraven_ugv_core.Subsystems.Bridge.{new_bridge}
use arcraven_ugv_core.Config.Vehicle.{Vehicle}
use arcraven_ugv_core.Config.Handlers.{register_default_command_handlers}
use arcraven_ugv_core.Config.Handlers.Answers.{Behaves, register_default_command_handlers-Behaves}
use arcraven_ugv_core.Utils.Logger.{Logger, info}
use arcraven_ugv_core.Main.{main_logger_config}
use arcraven_ugv_core.Config.Ticks.{control_round}
use arcraven_ugv_core.Config.Ticks.Control.{summary, effect, control_round-effect}

abbrev vehicle : Vehicle
vehicle = record {
  stop = not_stopped;
  estop = released;
  state = default_state;
  drives = record { drive_count = 8; is_enabled = true };
  link = new_bridge;
  files = record { commands = none; telemetry = none; appends = λ n. some 4096; opened = 0 };
}

abbrev command : UgvCommand → ℕ → CommandAuthority → CommandEnvelope
command cmd id authority = record default_envelope {
  command = cmd;
  command_id = id;
  authority = authority;
}

abbrev empty_router : CommandRouter Vehicle
empty_router = make (record { max_queue = 256 })

-- The wait behind the EmergencyStop still takes effect, the stop behind it is rejected.
abbrev router : CommandRouter Vehicle
router = record (register_default_command_handlers RejectReason.none empty_router) {
  q =
      command UgvCommand.emergency_stop 1 (CommandAuthority.unnamed 9)
      ∷ command UgvCommand.wait 2 (CommandAuthority.unnamed 5)
      ∷ command UgvCommand.stop 3 (CommandAuthority.unnamed 7)
      ∷ [];
}

control_round-effect_example :
    summary (control_round 5 router vehicle).1
    ≡ record { stopping = true; emergency = true; moving = true; authority = 5 }
unfolding summary effect latched stop_requested enabled authority_value is_expired
control_round-effect_example =
    ((control_round-effect RejectReason.none empty_router router 5 vehicle refl
        (tt, (tt, (tt, tt)))).1
      refl).1

register_default_command_handlers-Behaves_example :
    (f : CommandEnvelope → Vehicle → CommandResult × Vehicle) × (find
        (key UgvCommand.stop)
        router.handlers
      ≡ some (callable f))
    × ((c : CommandEnvelope) (v : Vehicle) → Behaves UgvCommand.stop f c v)
register_default_command_handlers-Behaves_example =
    register_default_command_handlers-Behaves RejectReason.none empty_router UgvCommand.stop tt

-- Under the settings of main.cpp the handler does not come back.
abbrev robot_log : Logger
robot_log = record {
  cfg = main_logger_config;
  cerr = [];
  file = some (record { text = []; pending = [] });
  min_level_now = info;
}

abbrev reasons : ℕ → Bytes
reasons t = t ∷ []

-- Thread 4 wins, thread 6 loses, and thread 4 stores its reason.
race :
    (s : Threads) × Reach reasons (start reasons) s
    × (s.phase 6 ≡ done)
    × (s.latch.reason ≡ some (4 ∷ []))
unfolding exchange store_reason start
race =
    (_, next (next (next here (wins 4 refl refl)) (loses 6 refl refl)) (stores 4 refl), refl, refl)

reason_kept_example : (race.0.latch.reason ≡ some (4 ∷ [])) × (latched race.0.latch ≡ true)
reason_kept_example = reason_kept reasons (4 ∷ []) race.1 race.3 here
