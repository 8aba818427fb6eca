-- ===== src/Core.antt =====
-- The core/ folder: the emergency stop, the stop flag, and the persisted state.
pub mod EStopLatch
pub mod StopController
pub mod Crc32
pub mod StateStore
