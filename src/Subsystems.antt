-- ===== src/Subsystems.antt =====
-- The subsystems/ folder: the interfaces to the hardware, their stubs, and the bridge to the clients.
pub mod Interfaces
pub mod Stubs
pub mod Bridge
