-- ===== src/Config/Fatal.antt =====
-- The code that logs a fatal line, with that line: EStopLatch::trigger, DriveSystemStub::estop, and
-- who calls them, each as one function; Config.System has all log lines of the threads, step by step.
-- Each gives what is stored, and `none` beside it where the call does not come back.
-- The clock and the thread's name are parameters.
pub mod Returns
use arcraven_ugv_core.Common.{Option, none, some, ◌++◌, if◌then◌else◌, Bytes, bytes}
use arcraven_ugv_core.Command.Types.{CommandEnvelope, CommandResult}
use arcraven_ugv_core.Core.EStopLatch.{EStopLatch, exchange, store_reason, latched, reason_string}
use arcraven_ugv_core.Core.StopController.{request_stop}
use arcraven_ugv_core.Subsystems.Stubs.{DriveSystemStub, estop}
use arcraven_ugv_core.Utils.Logger.{fatal, Logger, log}
use arcraven_ugv_core.Config.Vehicle.{Vehicle}
use arcraven_ugv_core.Config.Handlers.{succeeded}

module _ (stamp tid : Bytes) where
  unfoldable pub trigger_logged : Bytes → EStopLatch → Logger → EStopLatch × Option Logger
  trigger_logged r e l =
      let (e', won) = exchange e in
      let e'' = store_reason r e' in
      if won
      then (
        e'',
        log stamp tid fatal (bytes "E-STOP LATCHED: " ++ reason_string e'')
            (some (bytes "EStopLatch.hpp"), 20) l,
      )
      else (e', some l)

  unfoldable pub estop_logged : DriveSystemStub → Logger → DriveSystemStub × Option Logger
  estop_logged d l = (
    estop d,
    log stamp tid fatal (bytes "DriveSystem: ESTOP (stub) -> outputs disabled")
        (some (bytes "Stubs.hpp"), 33) l,
  )

  -- The EmergencyStop handler from the call of `trigger` on.
  unfoldable pub after_trigger :
      Vehicle → EStopLatch × Option Logger → Vehicle × Option (CommandResult × Logger)
  after_trigger v (e, none) = (record v { estop = e }, none)
  after_trigger v (e, some l) = (
    record v { estop = e; stop = request_stop v.stop },
    some (succeeded (bytes "estop latched"), l),
  )

  unfoldable pub on_emergency_stop_logged :
      CommandEnvelope → Vehicle → Logger → Vehicle × Option (CommandResult × Logger)
  unfolding after_trigger
  on_emergency_stop_logged c v l =
      after_trigger v (trigger_logged (bytes "EmergencyStop command") v.estop l)

  unfoldable pub estop_round_logged : Vehicle → Logger → Vehicle × Option Logger
  estop_round_logged v l =
      if latched v.estop
      then (let (d, back) = estop_logged v.drives l in
          let v' : Vehicle = record v { drives = d } in
          elim back [
            | none ↦ (v', none)
            | some l' ↦ (record v' { stop = request_stop v'.stop }, some l')
          ])
      else (v, some l)
