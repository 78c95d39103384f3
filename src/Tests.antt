-- ===== src/Tests.antt =====
-- Concrete runs of the modelled code, and each theorem at an input that meets its hypotheses.
mod PartyRuns
mod PresenceRuns
mod MatchmakerRuns
mod AuthRuns
mod TokenRuns
mod ConsoleRuns
mod OnlineRuns
mod LeaderboardRuns
mod RankCacheRuns
mod ScoreRuns
mod MatchRuns
mod WalletRuns
