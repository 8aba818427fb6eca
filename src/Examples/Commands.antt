-- ===== src/Examples/Commands.antt =====
-- Commands on their way: stamped, queued, executed.
use arcraven_ugv_core.Common.{ℕ, ◌+◌, ◌≡◌, ◌≢◌, inl, refl, true, [], ◌∷◌, some, arith}
use arcraven_ugv_core.Models.UgvCommand.{UgvCommand}
use arcraven_ugv_core.Models.CommandStatus.{CommandStatus}
use arcraven_ugv_core.Models.RejectReason.{RejectReason}
use arcraven_ugv_core.Command.Types.{CommandEnvelope, CommandResult, default_envelope, is_expired}
use arcraven_ugv_core.Command.Types.Expiry.{is_expired_iff}
use arcraven_ugv_core.Command.Router.{CommandHandler, callable, CommandRouter, submit, process_one}
use arcraven_ugv_core.Command.Router.Outcome.{Answers, process_one-Answers, submit-accepted_iff}
use arcraven_ugv_core.Command.Router.History.{submits, takes, run, fresh, IsFifo, run-IsFifo}

-- The vehicle is a counter of the commands executed.
abbrev count : CommandHandler ℕ
count = callable λ c n. (
  record {
    status = CommandStatus.none;
    reject_reason = RejectReason.none;
    message = c.payload_json;
  },
  n + 1,
)

abbrev go : ℕ → CommandEnvelope
go id = record default_envelope {
  command = UgvCommand.go_to;
  command_id = id;
  issued_ns = 100;
  ttl_ns = 50;
}

abbrev router : CommandRouter ℕ
router = record { cfg = record { max_queue = 2 }; q = go 1 ∷ []; handlers = (101, count) ∷ [] }

run-IsFifo_example : IsFifo 1 (
    run
      (fresh ℕ (record { max_queue = 1 }))
      (submits (go 1) ∷ submits (go 2) ∷ takes ∷ submits (go 3) ∷ []))
run-IsFifo_example =
    run-IsFifo ℕ (record { max_queue = 1 })
      (submits (go 1) ∷ submits (go 2) ∷ takes ∷ submits (go 3) ∷ [])

submit-accepted_iff_example : (submit (go 7) router).1 ≡ record router { q = go 1 ∷ go 7 ∷ [] }
unfolding submit
submit-accepted_iff_example = (submit-accepted_iff (go 7) router).1 refl

process_one-Answers_example :
    (result : CommandResult) × (n : ℕ) × (process_one 120 router 0
      ≡ (some (go 1, result), record router { q = [] }, n))
    × Answers 120 router.handlers (go 1) 0 result n
    × (result.status ≢ CommandStatus.none)
process_one-Answers_example = process_one-Answers 120 router 0 (go 1) [] refl

abbrev ignore : CommandEnvelope × CommandResult → ℕ → ℕ
ignore p n = n

is_expired_iff_example : is_expired (go 1) 200 ≡ true
is_expired_iff_example =
    (is_expired_iff (go 1) 200 (omega arith) (omega arith) (omega arith)).1
      (omega arith, omega arith, inl (omega arith))
