-- ===== src/Models/CommandStatus.antt =====
-- models/enums/CommandStatus.hpp.
use arcraven_ugv_core.Common.{ℕ}

pub data CommandStatus : Type 0 where
  none received accepted rejected running succeeded failed aborted preempted : CommandStatus
  expired : CommandStatus

-- `static_cast` to the underlying type.
unfoldable pub value : CommandStatus → ℕ
value none = 0
value received = 1
value accepted = 2
value rejected = 3
value running = 4
value succeeded = 5
value failed = 6
value aborted = 7
value preempted = 8
value expired = 9
