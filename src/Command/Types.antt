-- ===== src/Command/Types.antt =====
-- command/CommandTypes.hpp. Integers are uint64_t; their subtraction wraps.
pub mod Expiry
use arcraven_ugv_core.Common.{
  ℕ, ◌+◌, ◌-◌, ◌%◌, ◌^◌, Bool, true, false, ◌||◌, ◌==◌, ltb, if◌then◌else◌, Bytes, [],
}
use arcraven_ugv_core.Models.UgvCommand.{UgvCommand}
use arcraven_ugv_core.Models.CommandDomain.{CommandDomain}
use arcraven_ugv_core.Models.CommandPriority.{CommandPriority}
use arcraven_ugv_core.Models.CommandAuthority.{CommandAuthority}
use arcraven_ugv_core.Models.CommandStatus.{CommandStatus}
use arcraven_ugv_core.Models.RejectReason.{RejectReason}

pub record CommandEnvelope : Type 0 where
  pub command : UgvCommand
  pub domain : CommandDomain
  pub priority : CommandPriority
  pub authority : CommandAuthority
  pub command_id : ℕ
  pub issued_ns : ℕ
  pub ttl_ns : ℕ
  pub payload_json : Bytes

-- `CommandEnvelope{}`
abbrev pub default_envelope : CommandEnvelope
default_envelope = record {
  command = UgvCommand.stop;
  domain = CommandDomain.mobility;
  priority = CommandPriority.normal;
  authority = CommandAuthority.unknown;
  command_id = 0;
  issued_ns = 0;
  ttl_ns = 0;
  payload_json = [];
}

pub record CommandResult : Type 0 where
  pub status : CommandStatus
  pub reject_reason : RejectReason
  pub message : Bytes

abbrev pub U64 : ℕ
U64 = 2 ^ 64

-- `a - b` on uint64_t.
abbrev pub sub64 : ℕ → ℕ → ℕ
sub64 a b = (a + U64 - b) % U64

unfoldable pub is_expired : CommandEnvelope → ℕ → Bool
is_expired c now_ns =
    if c.ttl_ns == 0 || c.issued_ns == 0 then false else ltb c.ttl_ns (sub64 now_ns c.issued_ns)
