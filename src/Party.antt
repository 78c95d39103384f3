-- ===== src/Party.antt =====
-- internal/party/party.go: the in-memory registry of parties.
pub mod Types
pub mod Access
pub mod Membership
pub mod Departure
pub mod Leadership
pub mod Label
pub mod Lifecycle
pub mod WellFormed
pub mod Succession
pub mod Changes
pub mod Invariant
pub mod Preservation
pub mod LeaderCalls
pub mod OtherCalls
pub mod Sweep
pub mod Index
pub mod LeaveEffect
pub mod Exclusive
pub mod ExclusiveCalls
pub mod ExclusiveEnds
pub mod Calls
pub mod Config
pub mod ExclusiveRuns
pub mod Outcomes
pub mod Requests
