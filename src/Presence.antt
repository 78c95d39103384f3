-- ===== src/Presence.antt =====
-- internal/presence: which sessions are on which streams, who follows whom, who is online.
pub mod Stream
pub mod Tracker
pub mod Views
pub mod Consistency
pub mod Bulk
pub mod Refinement
pub mod Status
pub mod Mirror
pub mod Online
pub mod OnlineOk
pub mod OnlineRuns
pub mod Friends
