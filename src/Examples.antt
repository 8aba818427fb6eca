-- ===== src/Examples.antt =====
-- Concrete runs: each applies a theorem of the development to an input where its hypotheses hold.
mod System
mod Emergency
mod Hangs
mod Commands
mod Storage
mod Wire
mod Control
mod Process
