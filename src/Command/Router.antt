-- ===== src/Command/Router.antt =====
-- command/CommandRouter.hpp and CommandRouter.cpp. `S` is whatever the handlers capture and change;
-- a `std::function` is empty or callable. Each function is one critical section of the mutex, but
-- for `process_one`, which is `take_front` under the lock and then `execute` outside of it.
pub mod Outcome
pub mod History
pub mod Batch
use arcraven_ugv_core.Common.{
  ℕ, zero, suc, ◌≡◌, Bool, true, false, List, [], ◌∷◌, ◌++◌, Option, none, some, ◌==◌, leb,
  if◌then◌else◌, Bytes, bytes, length,
}
use arcraven_ugv_core.Models.UgvCommand.{UgvCommand, value}
use arcraven_ugv_core.Models.CommandStatus.{CommandStatus}
use arcraven_ugv_core.Models.RejectReason.{RejectReason}
use arcraven_ugv_core.Command.Types.{CommandEnvelope, CommandResult, is_expired}

pub data CommandHandler (S : Type 0) : Type 0 where
  empty : CommandHandler S
  callable : (CommandEnvelope → S → CommandResult × S) → CommandHandler S

pub record CommandRouterConfig : Type 0 where
  pub max_queue : ℕ

-- `q` has its front first; `handlers` has at most one entry for a key.
pub record CommandRouter (S : Type 0) : Type 0 where
  pub cfg : CommandRouterConfig
  pub q : List CommandEnvelope
  pub handlers : List (ℕ × CommandHandler S)

-- `static_cast<uint16_t>(c)`
unfoldable pub key : UgvCommand → ℕ
unfolding value
key c = value c

-- `if (r.status == CommandStatus::None) r.status = CommandStatus::Received;`
unfoldable pub received : CommandResult → CommandResult
received r = elim r.status [
  | CommandStatus.none ↦ record r { status = CommandStatus.received }
  | _ ↦ r
]

module _ {S : Type 0} where
  unfoldable pub make : CommandRouterConfig → CommandRouter S
  make cfg = record { cfg = cfg; q = []; handlers = [] }

  -- `handlers_[k] = handler`
  unfoldable pub assign :
      ℕ → CommandHandler S → List (ℕ × CommandHandler S) → List (ℕ × CommandHandler S)
  assign k handler [] = (k, handler) ∷ []
  assign k handler ((j, old) ∷ rest) =
      if j == k then (k, handler) ∷ rest else (j, old) ∷ assign k handler rest

  -- `handlers_.find(k)`
  unfoldable pub find : ℕ → List (ℕ × CommandHandler S) → Option (CommandHandler S)
  find k [] = none
  find k ((j, handler) ∷ rest) = if j == k then some handler else find k rest

  unfoldable pub register_handler :
      UgvCommand → CommandHandler S → CommandRouter S → CommandRouter S
  register_handler cmd handler r = record r { handlers = assign (key cmd) handler r.handlers }

  unfoldable pub has_handler : UgvCommand → CommandRouter S → Bool
  has_handler cmd r = elim (find (key cmd) r.handlers) [ none ↦ false | some handler ↦ true ]

  unfoldable pub submit : CommandEnvelope → CommandRouter S → CommandResult × CommandRouter S
  submit cmd r =
      if leb r.cfg.max_queue (length r.q)
      then (
        record {
          status = CommandStatus.rejected;
          reject_reason = RejectReason.busy;
          message = bytes "queue full";
        },
        r,
      )
      else if cmd.command_id == 0
      then (
        record {
          status = CommandStatus.rejected;
          reject_reason = RejectReason.invalid_payload;
          message = bytes "command_id=0";
        },
        r,
      )
      else (
        record {
          status = CommandStatus.accepted;
          reject_reason = RejectReason.none;
          message = bytes "";
        },
        record r { q = r.q ++ (cmd ∷ []) },
      )

  -- `if (it != handlers_.end()) handler = it->second;` on a handler that starts empty.
  unfoldable pub handler_of : UgvCommand → List (ℕ × CommandHandler S) → CommandHandler S
  handler_of cmd handlers = elim (find (key cmd) handlers) [ none ↦ empty | some handler ↦ handler ]

  unfoldable pub take_front :
      CommandRouter S → Option (CommandEnvelope × CommandHandler S × CommandRouter S)
  take_front r = elim r.q [
    | [] ↦ none
    | cmd ∷ rest ↦ some (cmd, handler_of cmd.command r.handlers, record r { q = rest })
  ]

  unfoldable pub call : CommandHandler S → CommandEnvelope → S → CommandResult × S
  unfolding received
  call empty cmd s = (
    record {
      status = CommandStatus.rejected;
      reject_reason = RejectReason.unsupported;
      message = bytes "no handler";
    },
    s,
  )
  call (callable f) cmd s = let (r, s') = f cmd s in (received r, s')

  unfoldable pub execute : ℕ → CommandEnvelope → CommandHandler S → S → CommandResult × S
  execute now_ns cmd handler s =
      if is_expired cmd now_ns
      then (
        record {
          status = CommandStatus.rejected;
          reject_reason = RejectReason.stale_command;
          message = bytes "expired";
        },
        s,
      )
      else call handler cmd s

  unfoldable pub process_one :
      ℕ → CommandRouter S → S → Option (CommandEnvelope × CommandResult) × CommandRouter S × S
  process_one now_ns r s = elim (take_front r) [
    | none ↦ (none, r, s)
    | some (cmd, handler, r') ↦
        let (result, s') = execute now_ns cmd handler s in (some (cmd, result), r', s')
  ]

  unfoldable pub process_some :
      ℕ → ℕ → (CommandEnvelope × CommandResult → S → S) → CommandRouter S → S → CommandRouter S × S
  process_some now_ns zero on_processed r s = (r, s)
  process_some now_ns (suc max_n) on_processed r s =
      let (o, r', s') = process_one now_ns r s in
      elim o [
        | none ↦ (r', s')
        | some p ↦ process_some now_ns max_n on_processed r' (on_processed p s')
      ]

  unfoldable pub queued : CommandRouter S → ℕ
  queued r = length r.q
