-- ===== src/Command/Router/Batch.antt =====
-- `process_some` over a whole queue.
use mathlib.Core.List.{foldl}
use arcraven_ugv_core.Common.{ℕ, zero, suc, ◌≡◌, refl, List, [], ◌∷◌, take, drop}
use arcraven_ugv_core.Command.Types.{CommandEnvelope, CommandResult}
use arcraven_ugv_core.Command.Router.{
  CommandHandler, CommandRouter, handler_of, take_front, execute, process_one, process_some,
}

module _ {S : Type 0} (now_ns : ℕ) (on_processed : CommandEnvelope × CommandResult → S → S) where
  -- One command, served and reported.
  unfoldable pub serve : List (ℕ × CommandHandler S) → S → CommandEnvelope → S
  serve handlers s c =
      let (result, s') = execute now_ns c (handler_of c.command handlers) s in
      on_processed (c, result) s'

  serve_queue :
      (n : ℕ) (r : CommandRouter S) (q : List CommandEnvelope) (s : S)
      → process_some now_ns n on_processed (record r { q = q }) s
        ≡ (record r { q = drop n q }, foldl (serve r.handlers) s (take n q))
  unfolding process_some process_one take_front serve
  serve_queue zero r q s = refl
  serve_queue (suc n) r [] s = refl
  serve_queue (suc n) r (c ∷ q) s = serve_queue n r q (serve r.handlers s c)

  -- A batch serves the first `n` commands of the queue (all of them, if there are fewer), each once
  -- and in order, and leaves the rest queued. The handlers and the limit stay.
  pub process_some-foldl :
      (n : ℕ) (r : CommandRouter S) (s : S)
      → process_some now_ns n on_processed r s
        ≡ (record r { q = drop n r.q }, foldl (serve r.handlers) s (take n r.q))
  process_some-foldl n r s = serve_queue n r r.q s
