-- ===== src/Core/StopController.antt =====
-- core/StopController.hpp. The state is the flag: the condition variable only ends a wait early.
use arcraven_ugv_core.Common.{Bool, true, false}

pub record StopController : Type 0 where
  pub stop : Bool

abbrev pub not_stopped : StopController
not_stopped = record { stop = false }

unfoldable pub request_stop : StopController → StopController
request_stop c = record c { stop = true }

unfoldable pub stop_requested : StopController → Bool
stop_requested c = c.stop
