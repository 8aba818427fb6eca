-- ===== src/Config/System/Weight.antt =====
-- How many steps a task has left at most, once the stop is asked for.
use arcraven_ugv_core.Common.{
  ℕ, suc, ◌+◌, ◌*◌, ◌≤◌, ◌<◌, ◌≡◌, inl, inr, refl, Bool, true, false, List, [], ◌∷◌, Option, none,
  some, Bytes, arith, Bool-cases, length, ◌&&◌, if◌then◌else◌,
}
use arcraven_ugv_core.Stdlib.Lines.{getlines, consumed, torn-le, consumed-getlines}
use arcraven_ugv_core.Command.Types.{CommandEnvelope, CommandResult}
use arcraven_ugv_core.Core.StopController.{stop_requested}
use arcraven_ugv_core.Core.StateStore.{SaveResult, returned, thrown}
use arcraven_ugv_core.Config.Vehicle.{Vehicle}
use arcraven_ugv_core.Config.System.{
  Task, main_task, control_task, io_task, persist_task, Pc, says, stuck, test, body, ended,
  requesting, starting, batch, storing, stopping, answered, publishing, pumping, submitting,
  waiting, shutdown, choosing, halting, joining, saving, has_returned, died, Shared, executed,
  is_stop_done, unread, says_warning, submits_parsed,
}
use arcraven_ugv_core.Config.System.Moves.{
  Move, ignores, logs, locks, enters, leaves, idles, cuts, asks, prepares, skips, begins, fills,
  finds_none, serves, latches, stores, stops, remembers, publishes, senses, opens, reads, submits,
  pumped, persists, wakes, requests, warns, halts, disables, finishes, after_persist,
  after_shutdown,
}

unfoldable pub weight : Pc → ℕ
weight (says lvl msg k) = suc (weight k)
weight (stuck k) = 0
weight test = 2
weight body = 60
weight ended = 0
weight requesting = 3
weight starting = 3
weight (batch n) = 3 + 7 * n
weight (storing n c) = 9 + 7 * n
weight (stopping n c) = 7 + 7 * n
weight (answered n p) = 6 + 7 * n
weight (publishing n p) = 4 + 7 * n
weight (pumping lines) = 3 + 3 * length lines
weight (submitting env lines) = 4 + 3 * length lines
weight waiting = 10
weight shutdown = 8
weight choosing = 7
weight halting = 5
weight joining = 3
weight saving = 2
weight (has_returned code) = 0
weight died = 0

abbrev pub is_io : Task → Bool
is_io io_task = true
is_io _ = false

abbrev pub is_body : Pc → Bool
is_body (says lvl msg k) = is_body k
is_body body = true
is_body _ = false

-- Before its round, io_thread also has the lines that it is about to read.
unfoldable pub cost : Task → Pc → Vehicle → ℕ
cost t p v = weight p + (if is_body p && is_io t then 3 * length (unread v.files v.link) else 0)

pub cost-other : (t : Task) (p : Pc) (v : Vehicle) → is_io t ≡ false → cost t p v ≡ weight p
unfolding cost
cost-other t p v e = ground (arith, e)

getlines-le : (s : Bytes) → length (getlines 10 s) ≤ length s + 1
unfolding consumed
getlines-le s = omega (arith, torn-le 10 s, consumed-getlines 10 s, counted (getlines 10 s))
  where
    counted : (lines : List Bytes) → length lines ≤ consumed lines
    counted [] = omega arith
    counted (line ∷ lines) = omega (arith, counted lines)

executed-weight :
    (n : ℕ) (c : CommandEnvelope) (res : CommandResult) → weight (executed n c res) ≤ 7 + 7 * n
unfolding weight
executed-weight n c res = elim (Bool-cases (is_stop_done c res)) [
  | inl e ↦ rw e (omega arith)
  | inr e ↦ rw e (omega arith)
]

read-cost :
    (w : Option Bytes) (o : Option CommandEnvelope) (lines : List Bytes) (v : Vehicle)
    → cost io_task (says_warning w (submits_parsed o lines)) v ≤ 5 + 3 * length lines
unfolding cost weight
read-cost none none lines v = omega arith
read-cost none (some env) lines v = omega arith
read-cost (some msg) none lines v = omega arith
read-cost (some msg) (some env) lines v = omega arith

after_persist-weight : (result : SaveResult) → weight (after_persist result) ≤ 2
unfolding weight
after_persist-weight (returned ok) = omega arith
after_persist-weight thrown = omega arith

after_shutdown-weight : (result : SaveResult) → weight (after_shutdown result) ≤ 1
unfolding weight
after_shutdown-weight (returned ok) = omega arith
after_shutdown-weight thrown = omega arith

module _ {D : Type 0} (ulong : ℕ) (show : D → Bytes) where
  pub Move-cost :
      {m m' : Shared D} {t : Task} {p p' : Pc}
      → Move ulong show m t p m' p'
      → stop_requested m.core.vehicle.stop ≡ true
      → cost t p' m'.core.vehicle < cost t p m.core.vehicle
  unfolding cost weight
  Move-cost (ignores e) h = omega arith
  Move-cost (logs stamp tid source l f e) h = omega arith
  Move-cost (locks stamp tid source f e) h = omega arith
  Move-cost (enters e) h = absurd (ground (arith, e, h))
  Move-cost (leaves e) h = omega arith
  Move-cost (idles e) h = omega arith
  Move-cost (cuts e) h = omega arith
  Move-cost asks h = omega arith
  Move-cost prepares h = omega arith
  Move-cost (skips e) h = omega arith
  Move-cost (begins e) h = omega arith
  Move-cost fills h = omega arith
  Move-cost (finds_none e) h = omega arith
  Move-cost (serves {n} now_ns c hd r res v e w x) h =
      omega (arith, executed-weight n c res, cost-other control_task (executed n c res) v refl)
  Move-cost (latches now_ns c hd r e w) h = omega arith
  Move-cost stores h = omega arith
  Move-cost stops h = omega arith
  Move-cost remembers h = omega arith
  Move-cost publishes h = omega arith
  Move-cost (senses now_ns frame joints v e) h = omega arith
  Move-cost {m = m} opens h =
      omega (arith, getlines-le (unread m.core.vehicle.files m.core.vehicle.link))
  Move-cost {m' = m'} reads h = omega (arith, read-cost _ _ _ m'.core.vehicle)
  Move-cost submits h = omega arith
  Move-cost pumped h = omega arith
  Move-cost {m' = m'} (persists env result disk e) h = omega (
    arith,
    after_persist-weight result,
    cost-other persist_task (after_persist result) m'.core.vehicle refl,
  )
  Move-cost (wakes e) h = omega arith
  Move-cost requests h = omega arith
  Move-cost (warns e) h = omega arith
  Move-cost halts h = omega arith
  Move-cost (disables e) h = omega arith
  Move-cost {m' = m'} (finishes env result core e) h = omega (
    arith,
    after_shutdown-weight result,
    cost-other main_task (after_shutdown result) m'.core.vehicle refl,
  )
