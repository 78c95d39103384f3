-- ===== src/Match.antt =====
-- internal/match: the tick loop of an authoritative match.
pub mod Types
pub mod Queues
pub mod Tick
pub mod Run
pub mod Calls
pub mod Responses
pub mod Panics
pub mod Idle
