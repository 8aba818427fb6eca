-- ===== src/Command/Types/Expiry.antt =====
-- When a command counts as expired, over the whole range of the clock.
use arcraven_ugv_core.Common.{ℕ, ◌+◌, ◌<◌, ◌≡◌, ◌≢◌, ◌↔◌, ◌⊎◌, true, arith}
use arcraven_ugv_core.Command.Types.{CommandEnvelope, U64, is_expired}

-- A command with both times set expires when its time to live has passed; and, since the age of a
-- command stamped later than `now_ns` wraps round, also when it lies in the future by less than
-- 2^64 minus its time to live. A command with no stamp or no time to live never expires.
pub is_expired_iff :
    (c : CommandEnvelope) (now_ns : ℕ)
    → c.issued_ns < U64
    → c.ttl_ns < U64
    → now_ns < U64
    → (is_expired c now_ns ≡ true) ↔ (
        (c.ttl_ns ≢ 0)
        × (c.issued_ns ≢ 0)
        × ((c.issued_ns + c.ttl_ns < now_ns)
            ⊎ ((now_ns < c.issued_ns) × (c.issued_ns + c.ttl_ns < now_ns + U64))))
unfolding is_expired
is_expired_iff c now_ns hi ht hn = ground arith
