-- ===== src/Config.antt =====
-- The config/ folder: the configuration, and UgvCore, which owns every other component.
pub mod UgvConfig
pub mod Vehicle
pub mod Handlers
pub mod Ticks
pub mod Boot
pub mod Runtime
pub mod Fatal
pub mod System
