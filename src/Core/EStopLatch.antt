-- ===== src/Core/EStopLatch.antt =====
-- core/EStopLatch.hpp. `trigger` is two critical steps: the exchange that latches, and the store of
-- the reason by the thread that won it. `trigger` runs both; Threads interleaves them.
pub mod Threads
use arcraven_ugv_core.Common.{Bool, true, false, Option, none, some, if◌then◌else◌, Bytes, bytes}

pub record EStopLatch : Type 0 where
  pub is_latched : Bool
  pub reason : Option Bytes

abbrev pub released : EStopLatch
released = record { is_latched = false; reason = none }

-- `latched_.compare_exchange_strong(false, true)`: the new state and whether the exchange was made.
unfoldable pub exchange : EStopLatch → EStopLatch × Bool
exchange e = if e.is_latched then (e, false) else (record e { is_latched = true }, true)

unfoldable pub store_reason : Bytes → EStopLatch → EStopLatch
store_reason r e = record e { reason = some r }

unfoldable pub trigger : Bytes → EStopLatch → EStopLatch
unfolding exchange store_reason
trigger r e = let (e', won) = exchange e in if won then store_reason r e' else e'

unfoldable pub latched : EStopLatch → Bool
latched e = e.is_latched

unfoldable pub reason_string : EStopLatch → Bytes
reason_string e = elim e.reason [ none ↦ bytes "unknown" | some r ↦ r ]
