-- ===== src/Leaderboard.antt =====
-- internal/leaderboard: the ranks kept in memory.
pub mod Text
pub mod Entry
pub mod Nodes
pub mod SkipList
pub mod Ranking
pub mod Towers
pub mod Walks
pub mod Found
pub mod SkipListOk
pub mod Linking
pub mod Unlinking
pub mod Adding
pub mod AddingOk
pub mod Removing
pub mod Board
pub mod Ranks
pub mod Refinement
pub mod Calls
pub mod Places
pub mod RankCache
pub mod RankCacheOk
pub mod RankCacheLoad
pub mod RankCacheRuns
pub mod Blacklists
pub mod Deadlines
pub mod DeadlinesOk
pub mod Scores
pub mod Submit
pub mod Refusals
pub mod SubmitOk
pub mod ScoresOk
