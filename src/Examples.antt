-- ===== src/Examples.antt =====
-- Examples: each theorem that has conditions, at concrete data that meets them.
mod Data
mod NamesShape
mod NamesCommit
mod LimiterHistory
mod RegistryClaims
mod LedgerStore
mod RevocationsFailClosed
mod RevocationsCommands
mod RevocationsSweep
mod DoorBounded
mod AuthAgent
mod JumpTunnel
mod ShellSingle
mod Enrolment
mod HandlersReach
mod EmbeddedSessions
mod Files
mod Network
mod Builds
mod Issuing
mod Slots
