-- ===== src/Core/EStopLatch/Threads.antt =====
-- Any number of threads that call `trigger` at once, their critical steps interleaved.
use arcraven_ugv_core.Common.{
  ℕ, ◌≡◌, ◌≢◌, inl, inr, refl, true, false, none, some, ◌==◌, if◌then◌else◌, Bool-cases, Bytes,
  arith,
}
use arcraven_ugv_core.Core.EStopLatch.{
  EStopLatch, released, exchange, store_reason, trigger, latched,
}

-- A call of `trigger`: not begun, past an exchange that it won, or done.
pub data Phase : Type 0 where
  before won done : Phase

pub record Threads : Type 0 where
  pub latch : EStopLatch
  pub phase : ℕ → Phase

abbrev pub at : (ℕ → Phase) → ℕ → Phase → ℕ → Phase
at f t p u = if u == t then p else f u

exchange_won :
    {l l' : EStopLatch}
    → exchange l ≡ (l', true)
    → (l.is_latched ≡ false) × (l'.is_latched ≡ true) × (l'.reason ≡ l.reason)
unfolding exchange
exchange_won e = ground arith

exchange_lost : {l l' : EStopLatch} → exchange l ≡ (l', false) → (l.is_latched ≡ true) × (l' ≡ l)
unfolding exchange
exchange_lost e = ground arith

-- Thread `t` calls `trigger` with the reason `reasons t`.
module _ (reasons : ℕ → Bytes) where
  pub data Step (s : Threads) : Threads → Type 0 where
    wins :
        {l : EStopLatch} (t : ℕ)
        → s.phase t ≡ before
        → exchange s.latch ≡ (l, true)
        → Step s (record { latch = l; phase = at s.phase t won })
    loses :
        {l : EStopLatch} (t : ℕ)
        → s.phase t ≡ before
        → exchange s.latch ≡ (l, false)
        → Step s (record { latch = l; phase = at s.phase t done })
    stores :
        (t : ℕ)
        → s.phase t ≡ won
        → Step s (record { latch = store_reason (reasons t) s.latch; phase = at s.phase t done })

  pub data Reach (s : Threads) : Threads → Type 0 where
    here : Reach s s
    next : {t u : Threads} → Reach s t → Step t u → Reach s u

  -- No thread has begun; or one has won and is about to store its reason; or its reason stands.
  pub data Inv (s : Threads) : Type 0 where
    unused :
        s.latch.is_latched ≡ false → s.latch.reason ≡ none → ((t : ℕ) → s.phase t ≡ before) → Inv s
    storing :
        (w : ℕ)
        → s.latch.is_latched ≡ true
        → s.latch.reason ≡ none
        → ((t : ℕ) → s.phase t ≡ won → t ≡ w)
        → s.phase w ≡ won
        → Inv s
    stored :
        (w : ℕ)
        → s.latch.is_latched ≡ true
        → s.latch.reason ≡ some (reasons w)
        → ((t : ℕ) → s.phase t ≢ won)
        → s.phase w ≡ done
        → Inv s

  wins-Inv :
      {s : Threads} {l : EStopLatch} (t : ℕ)
      → exchange s.latch ≡ (l, true)
      → Inv s
      → Inv (record { latch = l; phase = at s.phase t won })
  wins-Inv t e (unused l r h) =
      storing t (ground (arith, exchange_won e)) (ground (arith, exchange_won e))
        (λ u p. ground (arith, h u)) (ground arith)
  wins-Inv t e (storing w l r h p) = absurd (ground (arith, exchange_won e))
  wins-Inv t e (stored w l r h d) = absurd (ground (arith, exchange_won e))

  loses-Inv :
      {s : Threads} {l : EStopLatch} (t : ℕ)
      → s.phase t ≡ before
      → exchange s.latch ≡ (l, false)
      → Inv s
      → Inv (record { latch = l; phase = at s.phase t done })
  loses-Inv t b e (unused l r h) = absurd (ground (arith, exchange_lost e))
  loses-Inv t b e (storing w l r h p) =
      storing w (ground (arith, exchange_lost e)) (ground (arith, exchange_lost e))
        (λ u q. ground (arith, h u)) (ground arith)
  loses-Inv t b e (stored w l r h d) =
      stored w (ground (arith, exchange_lost e)) (ground (arith, exchange_lost e))
        (λ u q. ground (arith, h u)) (ground arith)

  stores-Inv :
      {s : Threads} (t : ℕ)
      → s.phase t ≡ won
      → Inv s
      → Inv (record { latch = store_reason (reasons t) s.latch; phase = at s.phase t done })
  unfolding store_reason
  stores-Inv t b (unused l r h) = absurd (ground (arith, h t))
  stores-Inv t b (storing w l r h p) =
      stored t l refl (λ u q. ground (arith, h u, h t)) (ground arith)
  stores-Inv t b (stored w l r h d) = absurd (h t b)

  Step-Inv : {s u : Threads} → Step s u → Inv s → Inv u
  Step-Inv (wins t b e) v = wins-Inv t e v
  Step-Inv (loses t b e) v = loses-Inv t b e v
  Step-Inv (stores t b) v = stores-Inv t b v

  unfoldable pub start : Threads
  start = record { latch = released; phase = λ t. before }

  Reach-Inv : {s : Threads} → Reach start s → Inv s
  unfolding start
  Reach-Inv here = unused refl refl (λ t. refl)
  Reach-Inv (next r st) = Step-Inv st (Reach-Inv r)

  Step-kept :
      {s u : Threads} (r : Bytes)
      → Step s u
      → Inv s
      → s.latch.reason ≡ some r
      → u.latch.reason ≡ some r
  Step-kept r (wins t b e) v h = ground (arith, exchange_won e)
  Step-kept r (loses t b e) v h = ground (arith, exchange_lost e)
  Step-kept r (stores t b) (unused l e n) h = absurd (ground (arith, e))
  Step-kept r (stores t b) (storing w l e n p) h = absurd (ground (arith, e))
  Step-kept r (stores t b) (stored w l e n d) h = absurd (n t b)

  reason-latched :
      {s : Threads} (r : Bytes) → Inv s → s.latch.reason ≡ some r → latched s.latch ≡ true
  unfolding latched
  reason-latched r (unused l e h) q = absurd (ground (arith, e))
  reason-latched r (storing w l e h p) q = l
  reason-latched r (stored w l e h d) q = l

  Reach_trans : {s t u : Threads} → Reach s t → Reach t u → Reach s u
  Reach_trans r here = r
  Reach_trans r (next q st) = next (Reach_trans r q) st

  -- From any state that the threads can reach: once a reason is recorded it is never replaced, and
  -- the stop stays latched, whatever they do next.
  pub reason_kept :
      {s u : Threads} (r : Bytes)
      → Reach start s
      → s.latch.reason ≡ some r
      → Reach s u
      → (u.latch.reason ≡ some r) × (latched u.latch ≡ true)
  reason_kept r from_start h here = (h, reason-latched r (Reach-Inv from_start) h)
  reason_kept r from_start h (next later st) =
      let (kept, _) = reason_kept r from_start h later in
      let before_step = Reach_trans from_start later in
      let kept' = Step-kept r st (Reach-Inv before_step) kept in
      (kept', reason-latched r (Reach-Inv (next before_step st)) kept')

  trigger_late :
      (r : Bytes) (l : EStopLatch)
      → l.is_latched ≡ true
      → (exchange l ≡ (l, false)) × (trigger r l ≡ l)
  unfolding trigger
  trigger_late r l h = (ground arith, ground arith)

  trigger_first :
      (r : Bytes) (l : EStopLatch)
      → l.is_latched ≡ false
      → let l' : EStopLatch = record l { is_latched = true } in
        (exchange l ≡ (l', true)) × (trigger r l ≡ store_reason r l')
  unfolding trigger
  trigger_first r l h = (ground arith, ground arith)

  -- A call of `trigger` with nobody in between is one way to interleave its steps.
  pub trigger-Reach :
      (s : Threads) (t : ℕ)
      → s.phase t ≡ before
      → (p : ℕ → Phase) × Reach s (record { latch = trigger (reasons t) s.latch; phase = p })
  trigger-Reach s t b = elim (Bool-cases s.latch.is_latched) [
    | inl late ↦
        let (e, same) = trigger_late (reasons t) s.latch late in
        (at s.phase t done, rw same (next here (loses t b e)))
    | inr first ↦
        let (e, same) = trigger_first (reasons t) s.latch first in
        (
          at (at s.phase t won) t done,
          rw same (next (next here (wins t b e)) (stores t (ground arith))),
        )
  ]
