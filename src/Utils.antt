-- ===== src/Utils.antt =====
-- The utils/ folder.
pub mod Base64
pub mod Logger
