-- ===== src/Config/System/Unread.antt =====
-- How what io_thread has still to read changes.
use arcraven_ugv_core.Common.{
  ℕ, zero, suc, ◌+◌, ◌≤◌, ◌≡◌, refl, ap, sym, ◌∙◌, Bool, true, false, List, [], ◌∷◌, ◌++◌, Option,
  none, some, Bytes, arith, length, drop, length-append, length-drop,
}
use arcraven_ugv_core.Command.Types.{CommandEnvelope, CommandResult}
use arcraven_ugv_core.Command.Router.{handler_of, execute}
use arcraven_ugv_core.Subsystems.Interfaces.{SensorFrame, JointState}
use arcraven_ugv_core.Subsystems.Bridge.{
  Bridge, BridgeFiles, append_to, append_telemetry, publish_command_result, publish_telemetry,
}
use arcraven_ugv_core.Config.Vehicle.{Vehicle}
use arcraven_ugv_core.Config.Handlers.Tidy.{HasTidy, execute-Tidily}
use arcraven_ugv_core.Config.Ticks.{control_start, sensor_round}
use arcraven_ugv_core.Config.Runtime.Safety.{end_shutdown-vehicle}
use arcraven_ugv_core.Config.System.{Task, Pc, Shared, remember, publish, unread, client_write}
use arcraven_ugv_core.Config.System.Moves.{
  Move, serves, publishes, senses, opens, reads, submits, pumped, finishes,
}
use arcraven_ugv_core.Config.System.Kept.{take_front-handlers}
use arcraven_ugv_core.Config.System.Weight.{is_io}

append_telemetry-commands :
    (text : Bytes) (b : Bridge) (files : BridgeFiles)
    → (append_telemetry text b files).1.commands ≡ files.commands
unfolding append_telemetry
append_telemetry-commands text b files = ground arith

unread-same :
    (files files' : BridgeFiles) (b : Bridge)
    → files'.commands ≡ files.commands
    → unread files' b ≡ unread files b
unfolding unread
unread-same files files' b e = simp e

-- What a vehicle's io_thread has to read.
abbrev pub unread_of : Vehicle → Bytes
unread_of v = unread v.files v.link

publish-unread :
    (p : CommandEnvelope × CommandResult) (v : Vehicle) → unread_of (publish p v) ≡ unread_of v
unfolding publish publish_command_result
publish-unread p v = unread-same v.files _ v.link (append_telemetry-commands _ v.link v.files)

sensor_round-unread :
    {D : Type 0} (show : D → Bytes) (now_ns : ℕ) (frame : SensorFrame)
    (joints : List (JointState D)) (v : Vehicle)
    → unread_of (sensor_round show now_ns frame joints v).2 ≡ unread_of v
unfolding sensor_round publish_telemetry
sensor_round-unread show now_ns frame joints v =
    unread-same v.files _ v.link (append_telemetry-commands _ v.link v.files)

drop-le : (n : ℕ) (xs ys : Bytes) → length (drop n (xs ++ ys)) ≤ length (drop n xs) + length ys
drop-le zero xs ys = omega (arith, length-append xs ys)
drop-le (suc n) [] ys = omega (arith, length-drop (suc n) ys)
drop-le (suc n) (x ∷ xs) ys = drop-le n xs ys

pub client_write-unread :
    (text : Bytes) (v : Vehicle)
    → length (unread_of (client_write text v)) ≤ length (unread_of v) + length text
unfolding client_write unread
client_write-unread text v = by_file v.link.initialized v.link.attached v.files.commands
  where
    by_file :
        (i a : Bool) (o : Option Bytes)
        → let b : Bridge = record v.link { initialized = i; attached = a } in
          let files : BridgeFiles = record v.files { commands = o } in
          let late : BridgeFiles = record v.files { commands = append_to o text } in
          length (unread late b) ≤ length (unread files b) + length text
    by_file true true (some content) = drop-le v.link.command_offset content text
    by_file true true none = omega arith
    by_file true false o = omega arith
    by_file false a o = omega arith

module _ {D : Type 0} (ulong : ℕ) (show : D → Bytes) where
  pub Move-unread :
      {m m' : Shared D} {t : Task} {p p' : Pc}
      → Move ulong show m t p m' p'
      → HasTidy m.core.cmd_router
      → is_io t ≡ false
      → unread_of m'.core.vehicle ≡ unread_of m.core.vehicle
  unfolding control_start remember
  Move-unread opens q n = absurd (ground (arith, n))
  Move-unread reads q n = absurd (ground (arith, n))
  Move-unread submits q n = absurd (ground (arith, n))
  Move-unread pumped q n = absurd (ground (arith, n))
  Move-unread {m = m} (serves now_ns c h r res v e w x) q n =
      let (found, _) = take_front-handlers m.core.cmd_router r c h e in
      let ran = ap (λ h'. (execute now_ns c h' m.core.vehicle).1) found ∙ ap (λ out. out.1) x in
      let w' =
        (execute now_ns c (handler_of c.command m.core.cmd_router.handlers) m.core.vehicle).1 in
      let tidy = execute-Tidily now_ns c m.core.vehicle m.core.cmd_router q in
      ap unread_of (sym ran)
      ∙ ap (λ files. unread files w'.link) tidy.files_kept
      ∙ ap (λ b. unread m.core.vehicle.files b) tidy.link_kept
  Move-unread {m = m} (publishes {p = p}) q n = publish-unread p m.core.vehicle
  Move-unread {m = m} (senses now_ns frame joints v e) q n =
      ap (λ out. unread_of out.2) (sym e)
      ∙ sensor_round-unread show now_ns m.frame m.joints m.core.vehicle
  Move-unread {m = m} (finishes env result core e) q n =
      ap (λ c. unread_of c.vehicle) (sym (ap (λ out. out.1) e))
      ∙ ap unread_of (end_shutdown-vehicle env m.core).0
  Move-unread _ q n = refl
