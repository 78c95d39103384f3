-- ===== src/Lib.antt =====
-- A model of the in-memory services of the game server, and what is proved of them.
--
-- The program is a multiplayer backend. Clients talk to it over gRPC (internal/api) and WebSockets
-- (internal/socket), which call the services: parties, presences, the matchmaker, sessions and
-- others. Each service keeps its state in maps under one mutex, so a method is modelled as one
-- function from the state to the state and a result, and a run as a sequence of such calls. A method
-- that fails returns its error as a value beside the state, as the code does.
--
-- What is modelled, and where:
--   * Prelude: shared names, Boolean tests, Go's signed int (ℤ), keys of maps. Dict: Go's maps as
--     association lists with lookup, insert and delete; a range over a map is a recursion over its
--     entries in the order of the list.
--   * Party (internal/party/party.go): Types is the data, Registry the state. Access has what every
--     method starts and ends with; Membership has Join and UpdateMemberProperties, Departure has
--     Leave and LeaveSession, Leadership has Promote, Accept, Remove and Close, Lifecycle has
--     Create, Update, SweepIdle and the constructors, Sweep is about SweepIdle, Label the check
--     of a label. WellFormed and Invariant hold the invariant of a party and of the registry,
--     Preservation, LeaderCalls and OtherCalls its preservation, Calls the runs. Index and the
--     modules Exclusive* relate the index byUser to the members. Succession, LeaveEffect,
--     Outcomes and Requests are about single calls.
--   * Presence (internal/presence): Stream and Tracker are stream_tracker.go, that is LocalTracker;
--     Views, Consistency, Bulk and Refinement compare it with a function from a session and a stream
--     to a presence. Status is the follow edges of status_registry.go, Mirror compares its two maps.
--     Online is OnlineIndex of online_index.go, OnlineOk, OnlineRuns and Friends are about who
--     is online.
--   * Matchmaker (internal/matchmaker): Ticket is the data of matchmaker.go; Sizes, Trim, Pairing
--     and Groups are matchDefault of process.go and all that it calls; Prepare and Pool are Submit,
--     SubmitParty, Cancel, RemovePartyAll and RemoveSessionAll of matchmaker.go on a server without
--     Redis, and queueConfig; Tokens is mintMatchToken and ConsumeMatchToken there, Selection the
--     loop of processQueue that picks groups. Fair, Fairness, Occurrences and Disjoint are about the
--     groups, PoolOk, Removal and PoolRuns about the pool, RateLimit about the limit of submits.
--   * Auth (internal/auth): Sessions is MemorySessionStore of session_store.go, Revocation is
--     about theft and revocation; Lockout is LoginLockout of security.go, Attempts is about runs of
--     failed logins.
--   * Leaderboard (internal/leaderboard), the ranks: Text is Go's order on strings, Entry the entries
--     of rank_cache.go and their order, Nodes and SkipList the SkipListRankCache of admin.go, with a
--     pointer as an address in a memory of nodes. Ranking is what it promises, a list without a
--     repeated owner that each operation treats as plain lists are treated. Towers, Walks, Found,
--     SkipListOk, Linking, Unlinking, Adding, AddingOk and Removing follow the links through its
--     levels; Board, Ranks, Refinement, Calls and Places compare the two. RankCache is GlobalRankCache
--     and its partitions, RankCacheOk, RankCacheLoad and RankCacheRuns are about them, Blacklists is
--     rank_blacklist.go.
--   * Leaderboard, the scores: Deadlines is deadlines.go, DeadlinesOk its bounds; Scores and Submit
--     are SubmitScore of leaderboard.go, Refusals, SubmitOk and ScoresOk are about it.
--   * Match (internal/match/loop.go): Types is the data, Queues the queues and the dispatcher, Tick
--     and Run are the tick and a turn of Start. Calls, Responses, Panics and Idle are about them.
--   * Economy (internal/economy/wallet.go): Wallet is UpdateWallets, Balance the arithmetic of a
--     balance, ChangesOk, WalletOk, Refusals and Batch are about what a batch does to the wallets.
--   * Console (internal/console/acl/acl.go): Permission is the bitmaps and their operations, Grants
--     and Access are about the bits.
--   * Tests: runs on concrete input.
--
-- How they interact: the socket layer tells the tracker of sessions that come and go and ends their
-- party membership by LeaveSession and their tickets by RemoveSessionAll; each tick runs
-- matchDefault on tickets that Submit let into the pool. SubmitScore writes the table of records and
-- then calls the cache of ranks, which keeps one skip list for each leaderboard and expiry; the
-- expiry comes from the deadlines. Requests to a match wait in its queues until its next tick.
--
-- Parameters and arguments: the time of time.Now() and the ids of uuid.New are arguments of the
-- methods that take them. json.Unmarshal of a party label is a parameter, and the bleve index is a
-- record of two operations, to build an index and to search it; a theorem that needs it assumes that
-- the hits of one search name no document twice. The roaring bitmap is a record of its operations
-- with what is assumed of its single bits. A time is a number of nanoseconds. An int is
-- unbounded where it is a count or a setting far below 2 ^ 63; an int64 that is summed or counted
-- from the outside, a score or a balance, wraps around by wrap_int64; the
-- subtraction of times is turned into an addition on the other side, so nothing is cut off at 0, but
-- for the expiry of a match token with a negative time to live, which normalizeConfig rules out.
-- Comparisons of Seconds(), a float64, with whole seconds are made on nanoseconds. The deadlines
-- count whole seconds and take the cron schedule as a parameter, of which a theorem assumes what is
-- documented: the next time is later than the one asked about, or the zero time if there is none,
-- and the next times, of which there may be fewer than asked for, are all later; to read one that is
-- not there is a panic, `none`. The coin tosses of a skip list are a list of Booleans. A
-- match of Go code is a record of functions that may panic. An SQL table is a map or a list of rows;
-- its statements succeed, and a transaction that ends in an error leaves it as it was.
--
-- Fuel: only the loop of trimToMultiple runs on fuel, the number of tickets after the seed; each
-- turn drops one of them and the loop ends when none is left, so that much is enough. The walks along
-- the links of a skip list run on the number of its nodes and one; each step goes to a later node of
-- the level, so that much is enough for a list that is well formed, and a walk that runs out, as one
-- that follows nil, is a fault, `none`. A division by a count multiple of zero is a panic in Go and
-- `none` in the model.
--
-- Not modelled: the other services (storage, social, chat, tournaments, the rate limiter, accounts),
-- the listing of records, the ledger's cursors and the purchases, the end and the registry of
-- matches, the Lua adapters, cron (a copy of a library), the Redis variants of the stores, which
-- leave the state to a server outside the repository, the runtime hooks, and the glue of gRPC,
-- sockets and SQL.
mod Prelude
pub mod Dict
pub mod Party
pub mod Presence
pub mod Matchmaker
pub mod Auth
pub mod Console
pub mod Leaderboard
pub mod Match
pub mod Economy
mod Tests
