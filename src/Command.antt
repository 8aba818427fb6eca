-- ===== src/Command.antt =====
-- The command/ folder: what a command is, and the router that queues and executes commands.
pub mod Types
pub mod Router
