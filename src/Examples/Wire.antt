-- ===== src/Examples/Wire.antt =====
-- The files of the bridge, the emergency stop, the log and the command line.
use arcraven_ugv_core.Common.{
  ℕ, ◌*◌, ◌^◌, ◌≡◌, refl, Bool, true, false, List, [], ◌∷◌, ◌++◌, none, some, Bytes, bytes, arith,
  length, take,
}
use arcraven_ugv_core.Stdlib.Lines.{getlines, torn}
use arcraven_ugv_core.Models.UgvCommand.{UgvCommand}
use arcraven_ugv_core.Models.CommandStatus.{CommandStatus}
use arcraven_ugv_core.Models.RejectReason.{RejectReason}
use arcraven_ugv_core.Command.Types.{CommandEnvelope, CommandResult, default_envelope}
use arcraven_ugv_core.Command.Router.{CommandRouter}
use arcraven_ugv_core.Subsystems.Interfaces.{SensorFrame, JointState}
use arcraven_ugv_core.Subsystems.Bridge.{
  Bridge, BridgeFiles, parse_line, submit_line, pump_rx, publish_command_result, publish_telemetry,
}
use arcraven_ugv_core.Subsystems.Bridge.Command.{
  command_line, IsWire, parse_line-command_line, parse_line-no_payload,
}
use arcraven_ugv_core.Subsystems.Bridge.Pump.{
  submit_lines, IsReady, pump_rx_lem, pump_rx-append, pump_rx_torn,
}
use arcraven_ugv_core.Subsystems.Bridge.Publish.{
  with_line, IsLineOf, result_fields, publish_command_result_lem,
}
use arcraven_ugv_core.Subsystems.Bridge.Telemetry.{
  joint_list, sensors, sensor_count, telemetry_fields, publish_telemetry_lem,
}

abbrev go : Bytes → CommandEnvelope
go payload = record default_envelope {
  command = UgvCommand.go_to;
  command_id = 7;
  issued_ns = 100;
  payload_json = payload;
}

go-IsWire : IsWire (go (bytes "a|b"))
go-IsWire = record {
  command_id = omega arith;
  issued_ns = omega arith;
  ttl_ns = omega arith;
  command = tt;
  domain = tt;
  priority = tt;
  authority = tt;
  payload_json = ground arith;
}

parse_line-command_line_example :
    parse_line (2 ^ 64) (command_line (go (bytes "a|b"))) ≡ some (go (bytes "a|b"))
parse_line-command_line_example =
    parse_line-command_line (2 ^ 64) (go (bytes "a|b")) (omega arith) go-IsWire (λ e. cc)

parse_line-no_payload_example : parse_line (2 ^ 64) (command_line (go [])) ≡ none
parse_line-no_payload_example = parse_line-no_payload (2 ^ 64) (go []) refl

abbrev bridge : Bridge
bridge = record {
  command_path = bytes "/data/bridge/commands.in";
  telemetry_path = bytes "/data/bridge/telemetry.out";
  command_offset = 3;
  attached = true;
  initialized = true;
}

bridge-IsReady : IsReady bridge
bridge-IsReady = record { initialized = refl; attached = refl }

abbrev router : CommandRouter ℕ
router = record { cfg = record { max_queue = 256 }; q = []; handlers = [] }

abbrev seen : Bytes
seen = bytes "ab" ++ (10 ∷ [])

abbrev line : Bytes
line = bytes "C|1|101|0|0|0|0|0|eA=="

-- The command file, and the telemetry file with an `x` in it.
abbrev with_commands : Bytes → BridgeFiles
with_commands content = record {
  commands = some content;
  telemetry = some (bytes "x");
  appends = λ n. some 4096;
  opened = 0;
}

pump_rx_lem_example :
    pump_rx (2 ^ 64) (with_commands (seen ++ (line ++ (10 ∷ [])))) bridge router ≡ (
      false,
      record bridge { command_offset = 26 },
      submit_lines (2 ^ 64) router (getlines 10 (line ++ (10 ∷ []))),
    )
unfolding torn
pump_rx_lem_example =
    pump_rx_lem (2 ^ 64) (with_commands (seen ++ (line ++ (10 ∷ [])))) bridge router seen
      (line ++ (10 ∷ [])) bridge-IsReady refl refl (omega arith)

pump_rx-append_example :
    let early = with_commands (seen ++ (line ++ (10 ∷ []))) in
    let late = with_commands (seen ++ (line ++ (10 ∷ (line ++ (10 ∷ []))))) in
    let first = pump_rx (2 ^ 64) early bridge router in
    pump_rx (2 ^ 64) late first.1 first.2 ≡ pump_rx (2 ^ 64) late bridge router
pump_rx-append_example =
    pump_rx-append (2 ^ 64) (with_commands (seen ++ (line ++ (10 ∷ []))))
      (with_commands (seen ++ (line ++ (10 ∷ (line ++ (10 ∷ [])))))) bridge router seen line
      (line ++ (10 ∷ [])) bridge-IsReady refl refl refl (omega arith)

-- The reader meets `C|1` and then the rest of the line, whose bar is lost.
pump_rx_torn_example :
    let early = with_commands (seen ++ bytes "C|1") in
    let late = with_commands (seen ++ bytes "C|1" ++ (b'|' ∷ bytes "102")) in
    let first = pump_rx (2 ^ 64) early bridge router in
    (pump_rx (2 ^ 64) late first.1 first.2).2
    ≡ submit_lines (2 ^ 64) (submit_line (2 ^ 64) (bytes "C|1") router) (getlines 10 (bytes "102"))
pump_rx_torn_example =
    pump_rx_torn (2 ^ 64) (with_commands (seen ++ bytes "C|1"))
      (with_commands (seen ++ bytes "C|1" ++ (b'|' ∷ bytes "102"))) bridge router seen (bytes "|1")
      (bytes "102") b'C' b'|' bridge-IsReady (ground arith) refl refl refl (omega arith)

abbrev result : CommandResult
result = record {
  status = CommandStatus.rejected;
  reject_reason = RejectReason.busy;
  message = bytes "queue|full";
}

publish_command_result_lem_example :
    (text : Bytes) × (publish_command_result 7 result bridge (with_commands [])
      ≡ (true, with_line (take 4096 text) (with_commands [])))
    × IsLineOf text (bytes "R" ∷ result_fields 7 result)
publish_command_result_lem_example =
    publish_command_result_lem 7 result bridge (with_commands []) 4096 refl refl (ground arith)

abbrev show : Bool → Bytes
show b = bytes "0.5"

abbrev frame : SensorFrame
frame = record {
  timestamp_ns = 12;
  ids = bytes "cam" ∷ [];
  types = bytes "rgb" ∷ [];
  payloads = bytes "||" ∷ bytes "unused" ∷ [];
}

abbrev joints : List (JointState Bool)
joints =
    record { id = bytes "1"; name = bytes "hip"; position = true; velocity = true; load = true }
    ∷ []

publish_telemetry_lem_example :
    (text : Bytes) × (publish_telemetry show frame joints bridge (with_commands [])
      ≡ (true, with_line (take 4096 text) (with_commands [])))
    × IsLineOf text (bytes "T" ∷ telemetry_fields show frame joints)
    × (length (joint_list show joints) ≡ 5 * length joints)
    × (length (sensors show frame joints) ≡ 3 * sensor_count show frame joints)
publish_telemetry_lem_example =
    publish_telemetry_lem show frame joints bridge (with_commands []) 4096 refl refl (ground arith)
      (ground arith)
