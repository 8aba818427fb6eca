-- ===== src/Subsystems/Bridge.antt =====
-- subsystems/Iceoryx2Bridge.hpp and Iceoryx2Bridge.cpp, without the log lines. The two files are the
-- bytes in them; `none` is a file that is missing, or for the commands one that cannot be opened. `ulong` is the number of
-- values of `unsigned long`: 2^32 or 2^64, by the platform.
pub mod Command
pub mod Pump
pub mod Publish
pub mod Telemetry
use mathlib.Core.List.{foldl}
use arcraven_ugv_core.Common.{
  ℕ, zero, suc, ◌+◌, ◌*◌, ◌%◌, ◌^◌, min, Bool, true, false, not, ◌||◌, List, [], ◌∷◌, ◌++◌, map,
  Option, none, some, ◌>>=◌, ◌==◌, if◌then◌else◌, Bytes, bytes, length, take, drop,
}
use arcraven_ugv_core.Stdlib.Lines.{getlines, starts_with}
use arcraven_ugv_core.Stdlib.Decimal.{decimal, sto}
use arcraven_ugv_core.Utils.Base64.{base64_encode, base64_decode}
use arcraven_ugv_core.Models.UgvCommand.{ugv_command_of}
use arcraven_ugv_core.Models.CommandDomain.{command_domain_of}
use arcraven_ugv_core.Models.CommandPriority.{command_priority_of}
use arcraven_ugv_core.Models.CommandAuthority.{command_authority_of}
use arcraven_ugv_core.Models.CommandStatus.{value as status_value}
use arcraven_ugv_core.Models.RejectReason.{value as reason_value}
use arcraven_ugv_core.Command.Types.{CommandEnvelope, CommandResult, U64}
use arcraven_ugv_core.Command.Router.{CommandRouter, submit}
use arcraven_ugv_core.Subsystems.Interfaces.{SensorFrame, JointState}

-- `attached` is whether `router_` is set; the router itself is handed to each call.
pub record Bridge : Type 0 where
  pub command_path : Bytes
  pub telemetry_path : Bytes
  pub command_offset : ℕ
  pub attached : Bool
  pub initialized : Bool

-- The telemetry file is opened again for each line. `appends` is what the file system answers each
-- time: that the file cannot be opened, or how many bytes the device takes before it refuses.
-- `opened` counts the times.
pub record BridgeFiles : Type 0 where
  pub commands : Option Bytes
  pub telemetry : Option Bytes
  pub appends : ℕ → Option ℕ
  pub opened : ℕ

abbrev pub new_bridge : Bridge
new_bridge = record {
  command_path = [];
  telemetry_path = [];
  command_offset = 0;
  attached = false;
  initialized = false;
}

-- `dir / name`, for a relative name.
unfoldable pub join_path : Bytes → Bytes → Bytes
join_path [] name = name
join_path (c ∷ []) name = if c == b'/' then c ∷ name else c ∷ b'/' ∷ name
join_path (c ∷ b ∷ dir) name = c ∷ join_path (b ∷ dir) name

unfoldable pub attach_router : Bridge → Bridge
attach_router b = record b { attached = true }

unfoldable pub configure_paths : Bytes → Bridge → Bridge
unfolding join_path
configure_paths base_dir b = record b {
  command_path = join_path base_dir (bytes "commands.in");
  telemetry_path = join_path base_dir (bytes "telemetry.out");
}

abbrev pub is_empty : Bytes → Bool
is_empty [] = true
is_empty (c ∷ s) = false

-- What the file system answers during `init`: whether the directory could be created, whether
-- `exists` answers for each file, and whether each missing file could be created. `exists` throws
-- on an error other than a missing file; a file that could not be created is not noticed.
pub record InitFaults : Type 0 where
  pub creates : Bool
  pub sees_commands : Bool
  pub sees_telemetry : Bool
  pub makes_commands : Bool
  pub makes_telemetry : Bool

pub data InitResult : Type 0 where
  answers : Bool → InitResult
  raises : InitResult  -- std::filesystem::filesystem_error

unfoldable pub create_missing : Bool → Option Bytes → Option Bytes
create_missing makes none = if makes then some [] else none
create_missing makes (some content) = some content

unfoldable pub init : InitFaults → Bridge → BridgeFiles → InitResult × Bridge × BridgeFiles
unfolding create_missing
init env b files =
    if is_empty b.command_path || is_empty b.telemetry_path
    then (answers false, b, files)
    else if not env.creates
    then (answers false, b, files)
    else if not env.sees_commands
    then (raises, b, files)
    else let files1 : BridgeFiles = record files {
      commands = create_missing env.makes_commands files.commands;
    } in
      if not env.sees_telemetry then (raises, b, files1) else (
        answers true,
        record b { initialized = true },
        record files1 { telemetry = create_missing env.makes_telemetry files1.telemetry },
      )

-- `if (line.back() == '\r') line.pop_back();`
unfoldable pub strip_cr : Bytes → Bytes
strip_cr [] = []
strip_cr (c ∷ []) = if c == 13 then [] else c ∷ []
strip_cr (c ∷ b ∷ s) = c ∷ strip_cr (b ∷ s)

-- The conversions of the fields; `none` is too few fields, or a caught exception. A payload that
-- does not decode is taken as empty.
unfoldable pub parse_parts : ℕ → List Bytes → Option CommandEnvelope
parse_parts ulong (p0 ∷ p1 ∷ p2 ∷ p3 ∷ p4 ∷ p5 ∷ p6 ∷ p7 ∷ p8 ∷ more) = do
  command_id ← sto U64 p1
  command ← sto ulong p2
  domain ← sto ulong p3
  priority ← sto ulong p4
  authority ← sto ulong p5
  issued_ns ← sto U64 p6
  ttl_ns ← sto U64 p7
  some (record {
    command = ugv_command_of command;
    domain = command_domain_of domain;
    priority = command_priority_of priority;
    authority = command_authority_of authority;
    command_id = command_id;
    issued_ns = issued_ns;
    ttl_ns = ttl_ns;
    payload_json = (base64_decode p8).0;
  })
parse_parts ulong _ = none

-- The body of the loop, but for the submission; `none` is a `continue`.
unfoldable pub parse_line : ℕ → Bytes → Option CommandEnvelope
parse_line ulong line =
    if is_empty line
    then none
    else let line' = strip_cr line in
      if not (starts_with line' (bytes "C|")) then none else parse_parts ulong (getlines b'|' line')

-- The log line that the body of the loop writes before it goes on, if any.
unfoldable pub parts_warning : ℕ → List Bytes → Option Bytes
parts_warning ulong (p0 ∷ p1 ∷ p2 ∷ p3 ∷ p4 ∷ p5 ∷ p6 ∷ p7 ∷ p8 ∷ more) =
    elim (parse_parts ulong (p0 ∷ p1 ∷ p2 ∷ p3 ∷ p4 ∷ p5 ∷ p6 ∷ p7 ∷ p8 ∷ more)) [
      | none ↦ some (bytes "Iceoryx2Bridge: command parse failed")
      | some env ↦
          if (base64_decode p8).1
          then none
          else some (bytes "Iceoryx2Bridge: payload decode failed")
    ]
parts_warning ulong _ = some (bytes "Iceoryx2Bridge: command line malformed")

unfoldable pub line_warning : ℕ → Bytes → Option Bytes
line_warning ulong line =
    if is_empty line
    then none
    else let line' = strip_cr line in
      if not (starts_with line' (bytes "C|"))
      then none
      else parts_warning ulong (getlines b'|' line')

module _ {S : Type 0} where
  unfoldable pub submit_line : ℕ → Bytes → CommandRouter S → CommandRouter S
  submit_line ulong line r = elim (parse_line ulong line) [ none ↦ r | some env ↦ (submit env r).1 ]

  -- `while (std::getline(in, line))`: the offset and the router.
  unfoldable pub pump_lines : ℕ → List Bytes → ℕ → CommandRouter S → ℕ × CommandRouter S
  pump_lines ulong [] offset r = (offset, r)
  pump_lines ulong (line ∷ lines) offset r =
      pump_lines ulong lines ((offset + (length line + 1)) % U64) (submit_line ulong line r)

  unfoldable pub pump_rx :
      ℕ → BridgeFiles → Bridge → CommandRouter S → Bool × Bridge × CommandRouter S
  pump_rx ulong files b r =
      if not b.initialized
      then (false, b, r)
      else if not b.attached
      then (false, b, r)
      else elim files.commands [
        | none ↦ (false, b, r)
        | some content ↦
            let (offset, r') =
              pump_lines ulong (getlines 10 (drop b.command_offset content)) b.command_offset r in
            (false, record b { command_offset = offset }, r')
      ]

unfoldable pub pump_tx : Bridge → Bool
pump_tx b = if not b.initialized then false else false

-- A client appends to a file that is there.
abbrev pub append_to : Option Bytes → Bytes → Option Bytes
append_to none text = none
append_to (some content) text = some (content ++ text)

abbrev pub content_of : Option Bytes → Bytes
content_of none = []
content_of (some content) = content

-- `std::ofstream out(telemetry_path_, std::ios::app)`, which makes a missing file, and the text
-- written to it. Nothing checks that the device took all of it.
unfoldable pub append_telemetry : Bytes → Bridge → BridgeFiles → Bool × BridgeFiles
append_telemetry text b files =
    if not b.initialized then (false, files) else elim (files.appends files.opened) [
      | none ↦ (false, record files { opened = suc files.opened })
      | some written ↦ (
        true,
        record files {
          telemetry = some (content_of files.telemetry ++ take written text);
          opened = suc files.opened;
        },
      )
    ]

-- `if (c == '|') c = '/';`
unfoldable pub sanitize : Bytes → Bytes
sanitize = map λ c. if c == b'|' then b'/' else c

unfoldable pub result_line : ℕ → CommandResult → Bytes
result_line command_id result =
    bytes "R|"
    ++ (decimal command_id
        ++ (b'|'
            ∷ (decimal (status_value result.status)
                ++ (b'|'
                    ∷ (decimal (reason_value result.reject_reason)
                        ++ (b'|' ∷ (sanitize result.message ++ (10 ∷ []))))))))

unfoldable pub publish_command_result :
    ℕ → CommandResult → Bridge → BridgeFiles → Bool × BridgeFiles
publish_command_result command_id result b files =
    append_telemetry (result_line command_id result) b files

-- The loop ends with the shortest of the three lists, whose length is `sensor_count`.
unfoldable pub sensor_fields : List Bytes → List Bytes → List Bytes → Bytes
sensor_fields (id ∷ ids) (kind ∷ types) (payload ∷ payloads) =
    b'|'
    ∷ (id
        ++ (b'|' ∷ (kind ++ (b'|' ∷ (base64_encode payload ++ sensor_fields ids types payloads)))))
sensor_fields _ _ _ = []

-- `show` is `operator<<` of a double.
module _ {D : Type 0} (show : D → Bytes) where
  unfoldable pub joint_fields : List (JointState D) → Bytes
  joint_fields [] = []
  joint_fields (j ∷ joints) =
      b'|'
      ∷ (j.id
          ++ (b'|'
              ∷ (j.name
                  ++ (b'|'
                      ∷ (show j.position
                          ++ (b'|'
                              ∷ (show j.velocity
                                  ++ (b'|' ∷ (show j.load ++ joint_fields joints)))))))))

  unfoldable pub telemetry_line : SensorFrame → List (JointState D) → Bytes
  telemetry_line frame joints =
      bytes "T|"
      ++ (decimal frame.timestamp_ns
          ++ (b'|'
              ∷ (decimal (length joints)
                  ++ (joint_fields joints
                      ++ (b'|'
                          ∷ (decimal (
                                min (length frame.ids)
                                  (min (length frame.types) (length frame.payloads)))
                              ++ (sensor_fields frame.ids frame.types frame.payloads
                                  ++ (10 ∷ []))))))))

  unfoldable pub publish_telemetry :
      SensorFrame → List (JointState D) → Bridge → BridgeFiles → Bool × BridgeFiles
  publish_telemetry frame joints b files = append_telemetry (telemetry_line frame joints) b files

  unfoldable pub publish_sensor_frame : SensorFrame → Bridge → BridgeFiles → Bool × BridgeFiles
  publish_sensor_frame frame b files = publish_telemetry frame [] b files
