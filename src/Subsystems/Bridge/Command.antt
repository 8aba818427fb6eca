-- ===== src/Subsystems/Bridge/Command.antt =====
-- Command lines: what the client writes (README.md, and encode_command in
-- rust/ugv_api/src/transport/iceoryx2_transport.rs) against what `pump_rx` reads.
use arcraven_ugv_core.Common.{
  ℕ, ◌≤◌, ◌<◌, ◌^◌, ◌≡◌, ◌≢◌, refl, ap, ◌∙◌, true, false, List, [], ◌∷◌, ◌++◌, none, some, ==_of_ne,
  Bytes, bytes, IsByte, All, length, arith,
}
use arcraven_ugv_core.Stdlib.Lines.{
  getlines, starts_with, joined, Without, getlines-joined, getlines-last, All-joined,
}
use arcraven_ugv_core.Stdlib.Decimal.{decimal, sto}
use arcraven_ugv_core.Stdlib.Decimal.RoundTrip.{IsDigit, sto-decimal, decimal-IsDigit}
use arcraven_ugv_core.Utils.Base64.{base64_encode}
use arcraven_ugv_core.Utils.Base64.RoundTrip.{base64_decode-base64_encode}
use arcraven_ugv_core.Utils.Base64.Shape.{
  IsLineSafe, base64_encode-IsLineSafe, length-base64_encode,
}
use arcraven_ugv_core.Models.UgvCommand.{UgvCommand, ugv_command_of, ugv_command_of-value}
use arcraven_ugv_core.Models.CommandDomain.{
  CommandDomain, command_domain_of, command_domain_of-value,
}
use arcraven_ugv_core.Models.CommandPriority.{
  CommandPriority, command_priority_of, command_priority_of-value,
}
use arcraven_ugv_core.Models.CommandAuthority.{
  CommandAuthority, command_authority_of, command_authority_of-value,
}
use arcraven_ugv_core.Models.UgvCommand
use arcraven_ugv_core.Models.CommandDomain
use arcraven_ugv_core.Models.CommandPriority
use arcraven_ugv_core.Models.CommandAuthority
use arcraven_ugv_core.Command.Types.{CommandEnvelope, U64}
use arcraven_ugv_core.Subsystems.Bridge.{strip_cr, parse_parts, parse_line, is_empty}

-- The eight fields before the payload, in the documented order.
unfoldable pub header_fields : CommandEnvelope → List Bytes
header_fields c =
    bytes "C"
    ∷ decimal c.command_id
    ∷ decimal (UgvCommand.value c.command)
    ∷ decimal (CommandDomain.value c.domain)
    ∷ decimal (CommandPriority.value c.priority)
    ∷ decimal (CommandAuthority.value c.authority)
    ∷ decimal c.issued_ns
    ∷ decimal c.ttl_ns
    ∷ []

-- The line without its end.
unfoldable pub command_line : CommandEnvelope → Bytes
command_line c = joined b'|' (header_fields c) (base64_encode c.payload_json)

-- An envelope whose fields fit their types, each enum at an enumerator.
pub record IsWire (c : CommandEnvelope) : Type 0 where
  pub command_id : c.command_id < U64
  pub issued_ns : c.issued_ns < U64
  pub ttl_ns : c.ttl_ns < U64
  pub command : UgvCommand.IsNamed c.command
  pub domain : CommandDomain.IsNamed c.domain
  pub priority : CommandPriority.IsNamed c.priority
  pub authority : CommandAuthority.IsNamed c.authority
  pub payload_json : All IsByte c.payload_json

digits-Without : (s : Bytes) → All IsDigit s → Without b'|' s × Without 13 s
digits-Without [] h = (tt, tt)
digits-Without (c ∷ s) (hc, h) =
    let (bar, cr) = digits-Without s h in ((omega arith, bar), (omega arith, cr))

safe-Without : (s : Bytes) → All IsLineSafe s → Without b'|' s × Without 13 s
safe-Without [] h = (tt, tt)
safe-Without (c ∷ s) (hc, h) = let (bar, cr) = safe-Without s h in ((hc.1, bar), (hc.3, cr))

decimal-Without : (n : ℕ) → Without b'|' (decimal n) × Without 13 (decimal n)
decimal-Without n = digits-Without (decimal n) (decimal-IsDigit n)

header_fields-All {κ} :
    (P : ℕ → Type κ) (c : CommandEnvelope)
    → P b'C'
    → ((n : ℕ) → All P (decimal n))
    → All (All P) (header_fields c)
unfolding header_fields
header_fields-All P c h d = (
  (h, tt),
  (
    d c.command_id,
    (
      d (UgvCommand.value c.command),
      (
        d (CommandDomain.value c.domain),
        (
          d (CommandPriority.value c.priority),
          (d (CommandAuthority.value c.authority), (d c.issued_ns, (d c.ttl_ns, tt))),
        ),
      ),
    ),
  ),
)

strip_cr-Without : (s : Bytes) → Without 13 s → strip_cr s ≡ s
unfolding strip_cr
strip_cr-Without [] h = refl
strip_cr-Without (c ∷ []) (hc, h) = rw (==_of_ne c 13 hc)
strip_cr-Without (c ∷ b ∷ s) (hc, h) = ap (◌∷◌ c) (strip_cr-Without (b ∷ s) h)

command_line-start :
    (c : CommandEnvelope)
    → (is_empty (command_line c) ≡ false) × (starts_with (command_line c) (bytes "C|") ≡ true)
unfolding command_line header_fields joined starts_with
command_line-start c = (refl, refl)

command_line-no_cr : (c : CommandEnvelope) → strip_cr (command_line c) ≡ command_line c
unfolding command_line
command_line-no_cr c = strip_cr-Without _ (
    All-joined (λ b. b ≢ 13) b'|' (header_fields c) (base64_encode c.payload_json) (omega arith)
      (header_fields-All (λ b. b ≢ 13) c (omega arith) (λ n. (decimal-Without n).1))
      (safe-Without _ (base64_encode-IsLineSafe c.payload_json)).1)

-- The parts that the reader splits a command line into.
line_parts :
    (ulong : ℕ) (c : CommandEnvelope)
    → parse_line ulong (command_line c)
      ≡ parse_parts ulong (header_fields c ++ getlines b'|' (base64_encode c.payload_json))
unfolding parse_line
line_parts ulong c =
    let (some_bytes, prefix) = command_line-start c in
    rw (some_bytes, command_line-no_cr c, prefix)
      (unfold command_line in
        ap (parse_parts ulong) (
          getlines-joined b'|' (header_fields c) (base64_encode c.payload_json)
            (header_fields-All (λ b. b ≢ b'|') c (omega arith) (λ n. (decimal-Without n).0))))

getlines-whole : (s : Bytes) → 0 < length s → Without b'|' s → getlines b'|' s ≡ s ∷ []
getlines-whole [] long h = absurd (omega arith)
getlines-whole (c ∷ s) long h = getlines-last b'|' c s h

encoding_part : (s : Bytes) → s ≢ [] → getlines b'|' (base64_encode s) ≡ base64_encode s ∷ []
encoding_part [] ne = absurd (ne refl)
encoding_part (c ∷ s) ne =
    getlines-whole (base64_encode (c ∷ s)) (omega (arith, length-base64_encode (c ∷ s)))
      (safe-Without _ (base64_encode-IsLineSafe (c ∷ s))).0

sto-small : (ulong n : ℕ) → 2 ^ 32 ≤ ulong → n < 2 ^ 16 → sto ulong (decimal n) ≡ some n
sto-small ulong n wide h = sto-decimal ulong n (omega arith) (omega arith)

-- A command with a payload is read back from its line as it was: no field is lost, exchanged or cut.
pub parse_line-command_line :
    (ulong : ℕ) (c : CommandEnvelope)
    → 2 ^ 32 ≤ ulong
    → IsWire c
    → c.payload_json ≢ []
    → parse_line ulong (command_line c) ≡ some c
parse_line-command_line ulong c wide w ne =
    line_parts ulong c
    ∙ ap (λ l. parse_parts ulong (header_fields c ++ l)) (encoding_part c.payload_json ne)
    ∙ parsed
  where
    command : UgvCommand.value c.command < 2 ^ 16
    command = UgvCommand.ugv_command-value-lt c.command w.command

    domain : CommandDomain.value c.domain < 2 ^ 8
    domain = CommandDomain.command_domain-value-lt c.domain w.domain

    priority : CommandPriority.value c.priority < 2 ^ 8
    priority = CommandPriority.command_priority-value-lt c.priority w.priority

    authority : CommandAuthority.value c.authority < 2 ^ 8
    authority = CommandAuthority.command_authority-value-lt c.authority w.authority

    parsed : parse_parts ulong (header_fields c ++ (base64_encode c.payload_json ∷ [])) ≡ some c
    parsed =
        unfold parse_parts header_fields in
        rw (
          sto-decimal U64 c.command_id w.command_id (omega (arith, w)),
          sto-small ulong (UgvCommand.value c.command) wide (omega (arith, command)),
          sto-small ulong (CommandDomain.value c.domain) wide (omega (arith, domain)),
          sto-small ulong (CommandPriority.value c.priority) wide (omega (arith, priority)),
          sto-small ulong (CommandAuthority.value c.authority) wide (omega (arith, authority)),
          sto-decimal U64 c.issued_ns w.issued_ns (omega (arith, w)),
          sto-decimal U64 c.ttl_ns w.ttl_ns (omega (arith, w)),
          ugv_command_of-value c.command w.command,
          command_domain_of-value c.domain w.domain,
          command_priority_of-value c.priority w.priority,
          command_authority_of-value c.authority w.authority,
          base64_decode-base64_encode c.payload_json w.payload_json,
        )

-- A command without a payload is dropped: its line ends with the separator, after which `getline`
-- yields no ninth part.
pub parse_line-no_payload :
    (ulong : ℕ) (c : CommandEnvelope)
    → c.payload_json ≡ []
    → parse_line ulong (command_line c) ≡ none
unfolding header_fields getlines parse_parts base64_encode
parse_line-no_payload ulong c e = line_parts ulong c ∙ rw e
