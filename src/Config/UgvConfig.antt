-- ===== src/Config/UgvConfig.antt =====
-- config/UgvConfig.hpp and core/Rate.hpp. Times are in microseconds.
use arcraven_ugv_core.Common.{ℕ, ◌+◌, Bytes}

pub record Rate : Type 0 where
  pub period : ℕ

-- The next deadline: it moves by the period, however late the thread is.
unfoldable pub sleep_until_next : ℕ → Rate → ℕ
sleep_until_next next r = next + r.period

pub record UgvConfig : Type 0 where
  pub data_dir : Bytes
  pub expected_drives : ℕ
  pub expected_cameras : ℕ
  pub max_lidars : ℕ
  pub control_rate : Rate
  pub io_rate : Rate
  pub sensor_rate : Rate
  pub persist_rate : Rate
  pub estop_rate : Rate

-- `UgvConfig{}` with the data directory set.
unfoldable pub default_config : Bytes → UgvConfig
default_config data_dir = record {
  data_dir = data_dir;
  expected_drives = 8;
  expected_cameras = 3;
  max_lidars = 5;
  control_rate = record { period = 5000 };
  io_rate = record { period = 20000 };
  sensor_rate = record { period = 10000 };
  persist_rate = record { period = 1000000 };
  estop_rate = record { period = 2000 };
}
