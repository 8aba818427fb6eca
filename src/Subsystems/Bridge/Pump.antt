-- ===== src/Subsystems/Bridge/Pump.antt =====
-- `pump_rx` over a command file that grows between calls.
use mathlib.Core.List.{foldl}
use arcraven_ugv_core.Common.{
  ℕ, ◌+◌, ◌%◌, ◌<◌, ◌≡◌, refl, sym, ap, ◌∙◌, Bool, true, false, List, [], ◌∷◌, ◌++◌, append_assoc,
  some, Bytes, length, length-append, drop, drop-append, arith,
}
use arcraven_ugv_core.Stdlib.Lines.{
  getlines, consumed, torn, Without, getlines-append, consumed-getlines, torn-append, torn-le,
  torn-Without, torn-nil, getlines-last,
}
use arcraven_ugv_core.Command.Types.{U64}
use arcraven_ugv_core.Command.Router.{CommandRouter}
use arcraven_ugv_core.Subsystems.Bridge.{Bridge, BridgeFiles, submit_line, pump_lines, pump_rx}

-- Set up to receive: the router attached and `init` successful.
pub record IsReady (b : Bridge) : Type 0 where
  pub initialized : b.initialized ≡ true
  pub attached : b.attached ≡ true

module _ {S : Type 0} where
  -- The submissions of a list of lines, in order.
  pub submit_lines : ℕ → CommandRouter S → List Bytes → CommandRouter S
  submit_lines ulong = foldl (λ r line. submit_line ulong line r)

  pump_lines-eq :
      (ulong : ℕ) (lines : List Bytes) (offset : ℕ) (r : CommandRouter S)
      → offset + consumed lines < U64
      → pump_lines ulong lines offset r ≡ (offset + consumed lines, submit_lines ulong r lines)
  unfolding pump_lines consumed submit_lines
  pump_lines-eq ulong [] offset r h = ap (λ o. (o, r)) (omega arith)
  pump_lines-eq ulong (line ∷ lines) offset r h =
      let step : (offset + (length line + 1)) % U64 ≡ offset + (length line + 1) = omega arith in
      rw step (
        pump_lines-eq ulong lines (offset + (length line + 1)) (submit_line ulong line r)
          (omega arith)
        ∙ ap (λ o. (o, submit_lines ulong (submit_line ulong line r) lines)) (omega arith))

  -- What a call does with what the line loop gives.
  abbrev finished : Bridge → ℕ × CommandRouter S → Bool × Bridge × CommandRouter S
  finished b (offset, r) = (false, record b { command_offset = offset }, r)

  pump_rx_runs :
      (ulong : ℕ) (files : BridgeFiles) (b : Bridge) (r : CommandRouter S) (content : Bytes)
      → IsReady b
      → files.commands ≡ some content
      → pump_rx ulong files b r
        ≡ finished b
            (pump_lines ulong (getlines 10 (drop b.command_offset content)) b.command_offset r)
  unfolding pump_rx
  pump_rx_runs ulong files b r content ready c = simp (ready.initialized, ready.attached, c)

  -- One call of `pump_rx` on a file that holds `seen`, up to the offset, and then `unread`: the lines
  -- of the latter are submitted in order, and the offset moves to the end of the file; but where
  -- the file ends in the middle of a line, one byte past the end.
  pub pump_rx_lem :
      (ulong : ℕ) (files : BridgeFiles) (b : Bridge) (r : CommandRouter S) (seen unread : Bytes)
      → IsReady b
      → files.commands ≡ some (seen ++ unread)
      → b.command_offset ≡ length seen
      → length (seen ++ unread) + 1 < U64
      → pump_rx ulong files b r ≡ (
        false,
        record b { command_offset = length (seen ++ unread) + torn 10 unread },
        submit_lines ulong r (getlines 10 unread),
      )
  pump_rx_lem ulong files b r seen unread ready c at_end fits =
      pump_rx_runs ulong files b r (seen ++ unread) ready c
      ∙ ap (λ o. finished b (pump_lines ulong (getlines 10 (drop o (seen ++ unread))) o r)) at_end
      ∙ ap (λ u. finished b (pump_lines ulong (getlines 10 u) (length seen) r))
          (drop-append seen unread)
      ∙ ap (finished b) (pump_lines-eq ulong (getlines 10 unread) (length seen) r small)
      ∙ ap (λ o. finished b (o, submit_lines ulong r (getlines 10 unread))) total
    where
      total : length seen + consumed (getlines 10 unread) ≡ length (seen ++ unread) + torn 10 unread
      total = omega (arith, consumed-getlines 10 unread, length-append seen unread)

      small : length seen + consumed (getlines 10 unread) < U64
      small = omega (arith, total, torn-le 10 unread, fits)

  foldl-lines :
      (ulong : ℕ) (r : CommandRouter S) (xs ys : List Bytes)
      → submit_lines ulong r (xs ++ ys) ≡ submit_lines ulong (submit_lines ulong r xs) ys
  unfolding submit_lines
  foldl-lines ulong r [] ys = refl
  foldl-lines ulong r (x ∷ xs) ys = foldl-lines ulong (submit_line ulong x r) xs ys

  -- A file that grows by whole lines: reading it before and after it grows by `more` leaves the
  -- bridge and the router as reading it once afterwards. No line is lost, or submitted twice.
  pub pump_rx-append :
      (ulong : ℕ) (early late : BridgeFiles) (b : Bridge) (r : CommandRouter S)
      (seen lines more : Bytes)
      → IsReady b
      → early.commands ≡ some (seen ++ (lines ++ (10 ∷ [])))
      → late.commands ≡ some (seen ++ (lines ++ (10 ∷ more)))
      → b.command_offset ≡ length seen
      → length (seen ++ (lines ++ (10 ∷ more))) + 1 < U64
      → let first = pump_rx ulong early b r in
        pump_rx ulong late first.1 first.2 ≡ pump_rx ulong late b r
  pump_rx-append ulong early late b r seen lines more ready e l at_end fits =
      ap (λ t. pump_rx ulong late t.1 t.2) first
      ∙ pump_rx_lem ulong late b1 r1 content more still grown at_end1 fits2
      ∙ ap (λ o. finished b (o, submit_lines ulong r1 (getlines 10 more))) offsets
      ∙ ap (λ r'. finished b (length whole + torn 10 (lines ++ (10 ∷ more)), r')) routers
      ∙ sym (pump_rx_lem ulong late b r seen (lines ++ (10 ∷ more)) ready l at_end fits)
    where
      content : Bytes
      content = seen ++ (lines ++ (10 ∷ []))

      whole : Bytes
      whole = seen ++ (lines ++ (10 ∷ more))

      r1 : CommandRouter S
      r1 = submit_lines ulong r (getlines 10 (lines ++ (10 ∷ [])))

      b1 : Bridge
      b1 = record b { command_offset = length content + torn 10 (lines ++ (10 ∷ [])) }

      still : IsReady b1
      still = record { initialized = ready.initialized; attached = ready.attached }

      same : whole ≡ content ++ more
      same = simp append_assoc

      lengths : length whole ≡ length content + length more
      lengths = ap length same ∙ length-append content more

      first : pump_rx ulong early b r ≡ (false, b1, r1)
      first =
          pump_rx_lem ulong early b r seen (lines ++ (10 ∷ [])) ready e at_end
            (omega (arith, lengths, fits))

      grown : late.commands ≡ some (content ++ more)
      grown = l ∙ ap some same

      at_end1 : length content + torn 10 (lines ++ (10 ∷ [])) ≡ length content
      at_end1 = omega (arith, torn-append 10 lines [], torn-nil 10)

      fits2 : length (content ++ more) + 1 < U64
      fits2 = omega (arith, ap length same, fits)

      offsets :
          length (content ++ more) + torn 10 more ≡ length whole + torn 10 (lines ++ (10 ∷ more))
      offsets = omega (arith, ap length same, torn-append 10 lines more)

      routers :
          submit_lines ulong r1 (getlines 10 more)
          ≡ submit_lines ulong r (getlines 10 (lines ++ (10 ∷ more)))
      routers =
          sym (foldl-lines ulong r (getlines 10 (lines ++ (10 ∷ []))) (getlines 10 more))
          ∙ ap (submit_lines ulong r) (sym (getlines-append 10 lines more))

  -- A file that is read in the middle of a line, behind `partial`: the part is taken for a command
  -- line of its own, and when the file has grown the next call begins one byte late, so that `lost`
  -- is never read.
  pub pump_rx_torn :
      (ulong : ℕ) (early late : BridgeFiles) (b : Bridge) (r : CommandRouter S)
      (seen partial rest : Bytes) (c lost : ℕ)
      → IsReady b
      → Without 10 (c ∷ partial)
      → early.commands ≡ some (seen ++ (c ∷ partial))
      → late.commands ≡ some (seen ++ (c ∷ partial) ++ (lost ∷ rest))
      → b.command_offset ≡ length seen
      → length (seen ++ (c ∷ partial) ++ (lost ∷ rest)) + 1 < U64
      → let first = pump_rx ulong early b r in
        (pump_rx ulong late first.1 first.2).2
        ≡ submit_lines ulong (submit_line ulong (c ∷ partial) r) (getlines 10 rest)
  pump_rx_torn ulong early late b r seen partial rest c lost ready w e l at_end fits =
      ap (λ t. (pump_rx ulong late t.1 t.2).2) first
      ∙ ap (λ t. t.2)
          (pump_rx_lem ulong late b1 r1 (content ++ (lost ∷ [])) rest still grown at_end1 fits2)
    where
      content : Bytes
      content = seen ++ (c ∷ partial)

      r1 : CommandRouter S
      r1 = submit_line ulong (c ∷ partial) r

      b1 : Bridge
      b1 = record b { command_offset = length content + torn 10 (c ∷ partial) }

      still : IsReady b1
      still = record { initialized = ready.initialized; attached = ready.attached }

      same : content ++ (lost ∷ rest) ≡ (content ++ (lost ∷ [])) ++ rest
      same = sym (append_assoc content (lost ∷ []) rest)

      one_line : submit_lines ulong r (getlines 10 (c ∷ partial)) ≡ r1
      one_line =
          ap (submit_lines ulong r) (getlines-last 10 c partial w) ∙ unfold submit_lines in refl

      first : pump_rx ulong early b r ≡ (false, b1, r1)
      first =
          pump_rx_lem ulong early b r seen (c ∷ partial) ready e at_end
            (omega (arith, length-append content (lost ∷ rest), fits))
          ∙ ap (λ r'. (false, b1, r')) one_line

      grown : late.commands ≡ some ((content ++ (lost ∷ [])) ++ rest)
      grown = l ∙ ap some same

      at_end1 : length content + torn 10 (c ∷ partial) ≡ length (content ++ (lost ∷ []))
      at_end1 = omega (arith, torn-Without 10 c partial w, length-append content (lost ∷ []))

      fits2 : length ((content ++ (lost ∷ [])) ++ rest) + 1 < U64
      fits2 = omega (arith, ap length same, fits)
