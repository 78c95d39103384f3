-- ===== src/Matchmaker.antt =====
-- internal/matchmaker: tickets, and the default matching of a queue into groups.
pub mod Ticket
pub mod Sizes
pub mod Fair
pub mod Trim
pub mod Pairing
pub mod Groups
pub mod Fairness
pub mod Occurrences
pub mod Disjoint
pub mod Prepare
pub mod Pool
pub mod PoolOk
pub mod Removal
pub mod PoolRuns
pub mod RateLimit
pub mod Tokens
pub mod Selection
