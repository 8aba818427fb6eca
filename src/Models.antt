-- ===== src/Models.antt =====
-- models/enums/: the enumerations that travel over the bridge.
pub mod Enumeration
pub mod UgvCommand
pub mod CommandDomain
pub mod CommandPriority
pub mod CommandAuthority
pub mod CommandStatus
pub mod RejectReason
