-- ===== src/Models/RejectReason.antt =====
-- models/enums/RejectReason.hpp.
use arcraven_ugv_core.Common.{ℕ}

pub data RejectReason : Type 0 where
  none not_authorized invalid_payload unsupported unsafe busy : RejectReason
  preconditions_fail timeout stale_command : RejectReason

-- `static_cast` to the underlying type.
unfoldable pub value : RejectReason → ℕ
value none = 0
value not_authorized = 1
value invalid_payload = 2
value unsupported = 3
value unsafe = 4
value busy = 5
value preconditions_fail = 6
value timeout = 7
value stale_command = 8
