-- ===== src/Command/Router/History.antt =====
-- The router over any sequence of its critical sections, from whichever threads they come: a bounded
-- first-in, first-out queue.
use arcraven_ugv_core.Common.{
  ℕ, ◌≤◌, ◌≡◌, ◌≢◌, refl, ◌∙◌, List, [], ◌∷◌, ◌++◌, append_assoc, none, some, length, length-append,
  All, All-append, Bool, true, false, arith, if◌then◌else◌,
}
use arcraven_ugv_core.Models.UgvCommand.{UgvCommand}
use arcraven_ugv_core.Models.CommandStatus.{CommandStatus}
use arcraven_ugv_core.Command.Types.{CommandEnvelope}
use arcraven_ugv_core.Command.Router.{
  CommandHandler, CommandRouter, CommandRouterConfig, make, register_handler, submit, take_front,
}

-- What has been let into the queue, and what has been taken out of it, oldest first.
pub record History (S : Type 0) : Type 0 where
  pub router : CommandRouter S
  pub accepted : List CommandEnvelope
  pub taken : List CommandEnvelope

pub data Section (S : Type 0) : Type 0 where
  registers : UgvCommand → CommandHandler S → Section S
  submits : CommandEnvelope → Section S
  takes : Section S

pub is_accepted : CommandStatus → Bool
is_accepted CommandStatus.accepted = true
is_accepted _ = false

abbrev pub HasId : CommandEnvelope → Type 0
HasId c = c.command_id ≢ 0

module _ {S : Type 0} where
  pub step : Section S → History S → History S
  unfolding is_accepted
  step (registers cmd handler) h = record h { router = register_handler cmd handler h.router }
  step (submits c) h =
      let (result, r) = submit c h.router in
      record h {
        router = r;
        accepted = if is_accepted result.status then h.accepted ++ (c ∷ []) else h.accepted;
      }
  step takes h = elim (take_front h.router) [
    | none ↦ h
    | some (c, handler, r) ↦ record h { router = r; taken = h.taken ++ (c ∷ []) }
  ]

  pub run : History S → List (Section S) → History S
  run h [] = h
  run h (x ∷ xs) = run (step x h) xs

  -- No accepted command is lost, doubled or reordered; the queue keeps its limit and holds only
  -- commands with an id.
  pub record IsFifo (limit : ℕ) (h : History S) : Type 0 where
    pub in_order : h.taken ++ h.router.q ≡ h.accepted
    pub bounded : length h.router.q ≤ limit
    pub limited : h.router.cfg.max_queue ≡ limit
    pub with_id : All HasId h.router.q

  submits-IsFifo :
      (limit : ℕ) (c : CommandEnvelope) (h : History S)
      → IsFifo limit h
      → IsFifo limit (step (submits c) h)
  unfolding step submit
  submits-IsFifo limit c h v = ground (
    arith,
    length-append h.router.q (c ∷ []),
    append_assoc h.taken h.router.q (c ∷ []),
    All-append HasId h.router.q (c ∷ []) v.with_id,
  )

  takes-IsFifo :
      (limit : ℕ) (r : CommandRouter S) (accepted taken q : List CommandEnvelope)
      → let h : List CommandEnvelope → History S =
          λ q. record { router = record r { q = q }; accepted = accepted; taken = taken } in
        IsFifo limit (h q) → IsFifo limit (step takes (h q))
  unfolding step take_front
  takes-IsFifo limit r accepted taken [] v = v
  takes-IsFifo limit r accepted taken (c ∷ q) v = record {
    in_order = append_assoc taken (c ∷ []) q ∙ v.in_order;
    bounded = omega (arith, v.bounded);
    limited = v.limited;
    with_id = v.with_id.1;
  }

  step-IsFifo :
      (limit : ℕ) (x : Section S) (h : History S) → IsFifo limit h → IsFifo limit (step x h)
  step-IsFifo limit (registers cmd handler) h v =
      unfold step register_handler in
      record {
        in_order = v.in_order;
        bounded = v.bounded;
        limited = v.limited;
        with_id = v.with_id;
      }
  step-IsFifo limit (submits c) h v = submits-IsFifo limit c h v
  step-IsFifo limit takes h v = takes-IsFifo limit h.router h.accepted h.taken h.router.q v

  run_from-IsFifo :
      (limit : ℕ) (xs : List (Section S)) (h : History S) → IsFifo limit h → IsFifo limit (run h xs)
  unfolding run
  run_from-IsFifo limit [] h v = v
  run_from-IsFifo limit (x ∷ xs) h v = run_from-IsFifo limit xs (step x h) (step-IsFifo limit x h v)

-- A new router, before any call.
pub fresh : (S : Type 0) → CommandRouterConfig → History S
fresh S cfg = record { router = make cfg; accepted = []; taken = [] }

-- Whatever the threads register, submit and take, and in whatever order: what was taken and what is
-- queued together are what was accepted, in that order; the queue never passes its limit; and each
-- queued command has an id.
pub run-IsFifo :
    (S : Type 0) (cfg : CommandRouterConfig) (xs : List (Section S))
    → IsFifo cfg.max_queue (run (fresh S cfg) xs)
unfolding fresh make
run-IsFifo S cfg xs =
    run_from-IsFifo cfg.max_queue xs _
      (record { in_order = refl; bounded = omega arith; limited = refl; with_id = tt })
