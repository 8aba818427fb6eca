-- ===== src/Subsystems/Bridge/Publish.antt =====
-- The lines written to telemetry.out, against how the client takes them apart: `line.split('|')` in
-- parse_result_line and parse_telemetry_line of rust/ugv_api/src/transport/iceoryx2_transport.rs.
use arcraven_ugv_core.Common.{
  ℕ, suc, ◌≡◌, ◌≢◌, refl, sym, ap, ◌∙◌, true, List, [], ◌∷◌, ◌++◌, append_assoc, append-nil, some,
  ◌==◌, if◌then◌else◌, ==_refl, ==_of_ne, Bytes, bytes, take, All, All-append, arith,
}
use arcraven_ugv_core.Stdlib.Lines.{prepend, Without}
use arcraven_ugv_core.Stdlib.Decimal.{decimal}
use arcraven_ugv_core.Stdlib.Decimal.RoundTrip.{IsDigit, decimal-IsDigit}
use arcraven_ugv_core.Utils.Base64.{base64_encode}
use arcraven_ugv_core.Utils.Base64.Shape.{IsLineSafe, base64_encode-IsLineSafe}
use arcraven_ugv_core.Models.CommandStatus.{value as status_value}
use arcraven_ugv_core.Models.RejectReason.{value as reason_value}
use arcraven_ugv_core.Command.Types.{CommandResult}
use arcraven_ugv_core.Subsystems.Bridge.{
  Bridge, BridgeFiles, content_of, append_telemetry, sanitize, result_line, publish_command_result,
}

-- All strings between delimiters, empty ones included.
pub split : ℕ → Bytes → List Bytes
unfolding prepend
split d [] = [] ∷ []
split d (c ∷ cs) = if c == d then [] ∷ split d cs else prepend c (split d cs)

-- Fields with a delimiter in front of each.
unfoldable pub led : ℕ → List Bytes → Bytes
led d [] = []
led d (f ∷ fs) = d ∷ (f ++ led d fs)

pub split-led :
    (d : ℕ) (f : Bytes) (fs : List Bytes)
    → Without d f
    → All (Without d) fs
    → split d (f ++ led d fs) ≡ f ∷ fs
unfolding split led
split-led d [] [] hf h = refl
split-led d [] (g ∷ fs) hf (hg, h) = rw (==_refl d) (ap (◌∷◌ []) (split-led d g fs hg h))
split-led d (c ∷ f) fs (hc, hf) h = rw (==_of_ne c d hc, split-led d f fs hf h)

pub led-append : (d : ℕ) (fs gs : List Bytes) → led d (fs ++ gs) ≡ led d fs ++ led d gs
unfolding led
led-append d [] gs = refl
led-append d (f ∷ fs) gs =
    ap (◌∷◌ d) (ap (◌++◌ f) (led-append d fs gs) ∙ sym (append_assoc f (led d fs) (led d gs)))

-- What the line loop of the reader relies on in a field.
abbrev pub IsField : Bytes → Type 0
IsField s = Without b'|' s × Without 10 s

pub decimal-IsField : (n : ℕ) → IsField (decimal n)
decimal-IsField n = digits (decimal n) (decimal-IsDigit n)
  where
    digits : (s : Bytes) → All IsDigit s → IsField s
    digits [] h = (tt, tt)
    digits (c ∷ s) (hc, h) = let (p, q) = digits s h in ((omega arith, p), (omega arith, q))

pub encoded-IsField : (s : Bytes) → IsField (base64_encode s)
encoded-IsField s = safe (base64_encode s) (base64_encode-IsLineSafe s)
  where
    safe : (s : Bytes) → All IsLineSafe s → IsField s
    safe [] h = (tt, tt)
    safe (c ∷ s) (hc, h) = let (p, q) = safe s h in ((hc.1, p), (hc.2, q))

-- The only change to a message: '/' for each '|'.
sanitize-IsField : (s : Bytes) → Without 10 s → IsField (sanitize s)
unfolding sanitize
sanitize-IsField [] h = (tt, tt)
sanitize-IsField (c ∷ s) (hc, h) =
    let (p, q) = sanitize-IsField s h in ((ground arith, p), (ground arith, q))

All-led : (fs : List Bytes) → All IsField fs → Without 10 (led b'|' fs)
unfolding led
All-led [] h = tt
All-led (f ∷ fs) (hf, h) =
    (omega arith, All-append (λ c. c ≢ 10) f (led b'|' fs) hf.1 (All-led fs h))

bars : (fs : List Bytes) → All IsField fs → All (Without b'|') fs
bars [] h = tt
bars (f ∷ fs) (hf, h) = (hf.0, bars fs h)

-- A text that the client reads as one line with these fields.
abbrev pub IsLineOf : Bytes → List Bytes → Type 0
IsLineOf text fs =
    (line : Bytes) × (text ≡ line ++ (10 ∷ [])) × Without 10 line × (split b'|' line ≡ fs)

pub line_of :
    (f : Bytes) (fs : List Bytes)
    → IsField f
    → All IsField fs
    → IsLineOf ((f ++ led b'|' fs) ++ (10 ∷ [])) (f ∷ fs)
line_of f fs hf h = (
  f ++ led b'|' fs,
  refl,
  All-append (λ c. c ≢ 10) f (led b'|' fs) hf.1 (All-led fs h),
  split-led b'|' f fs hf.0 (bars fs h),
)

-- The files once more bytes are in the telemetry file, which is there from then on.
abbrev pub with_line : Bytes → BridgeFiles → BridgeFiles
with_line text files = record files {
  telemetry = some (content_of files.telemetry ++ text);
  opened = suc files.opened;
}

pub appended :
    (text : Bytes) (b : Bridge) (files : BridgeFiles) (written : ℕ)
    → b.initialized ≡ true
    → files.appends files.opened ≡ some written
    → append_telemetry text b files ≡ (true, with_line (take written text) files)
unfolding append_telemetry
appended text b files written i t = rw (i, t) refl

-- The status, the reason and the rest of a result, as fields.
pub result_fields : ℕ → CommandResult → List Bytes
result_fields command_id result =
    decimal command_id
    ∷ decimal (status_value result.status)
    ∷ decimal (reason_value result.reject_reason)
    ∷ sanitize result.message
    ∷ []

result_line-led :
    (command_id : ℕ) (result : CommandResult)
    → result_line command_id result
      ≡ (bytes "R" ++ led b'|' (result_fields command_id result)) ++ (10 ∷ [])
unfolding result_line led result_fields
result_line-led command_id result = simp (append_assoc, append-nil)

-- A result goes out as one line of five fields, whatever bars its message holds, as long as the
-- message has no line end: the id, the status and the reason in decimal, and the message with each
-- bar made a slash. Where the file can be opened, the line is put behind what it held, if it was
-- there; a device that fills up takes the first bytes of the line, and the call returns true
-- nevertheless.
pub publish_command_result_lem :
    (command_id : ℕ) (result : CommandResult) (b : Bridge) (files : BridgeFiles) (written : ℕ)
    → b.initialized ≡ true
    → files.appends files.opened ≡ some written
    → Without 10 result.message
    → (text : Bytes) × (publish_command_result command_id result b files
        ≡ (true, with_line (take written text) files))
      × IsLineOf text (bytes "R" ∷ result_fields command_id result)
unfolding publish_command_result
publish_command_result_lem command_id result b files written i t no_end = (
  result_line command_id result,
  appended (result_line command_id result) b files written i t,
  rw (result_line-led command_id result)
      (line_of (bytes "R") (result_fields command_id result) (omega arith) fields),
)
  where
    fields : All IsField (result_fields command_id result)
    fields =
        unfold result_fields in
        (
          decimal-IsField command_id,
          (
            decimal-IsField (status_value result.status),
            (
              decimal-IsField (reason_value result.reject_reason),
              (sanitize-IsField result.message no_end, tt),
            ),
          ),
        )
