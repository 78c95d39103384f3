-- ===== src/Tests/RankCacheRuns.antt =====
-- Runs of internal/leaderboard/rank_cache.go and rank_blacklist.go.
use ultimate_game_server.Prelude.{
  ℕ, String, ◌≡◌, refl, true, false, Option, some, List, [], ◌∷◌, ◌++◌, map, arith, ◌>>=◌,
  String-discrete, is_zero_ℤ, ℤ, pos, string_key,
}
use ultimate_game_server.Dict.{lookup, insert, delete}
use ultimate_game_server.Presence.Stream.{ℤ-discrete, stream_key}
use ultimate_game_server.Leaderboard.Entry.{by_key, less, RankEntry}
use ultimate_game_server.Leaderboard.Nodes.{load_entry, load_next, set_next, new_node}
use ultimate_game_server.Leaderboard.SkipList.{
  new_skip_list, random_level, walk, search_levels, find_update, raise, link, unlink, delete_locked,
  count_to, rank_of_locked, delete_old, add_entry, insert_entry, get_rank, advance,
  get_data_by_rank,
}
use ultimate_game_server.Leaderboard.Ranking.{Ordered}
use ultimate_game_server.Leaderboard.Board.{self}
use ultimate_game_server.Leaderboard.RankCache.{
  LeaderboardExpiryKey-discrete, RankCache, is_blacklisted, key_of, get_or_new, insert_score,
  rank_of, delete_score, drop_where, delete_leaderboard, evict_partition, trim_expired, ranks_from,
  fill_ranks, load_each, load_from_records, data_by_rank, LeaderboardExpiryKey, Blacklist,
  LeaderboardRecord, expiry_key,
}
use ultimate_game_server.Leaderboard.RankCacheOk.{CacheOk, insert_score-rank_of}
use ultimate_game_server.Leaderboard.RankCacheLoad.{
  numbered, record_entries, load_from_records-fill_ranks,
}
use ultimate_game_server.Leaderboard.RankCacheRuns.{
  cache_step, cache_run, cache_run-CacheOk, CacheCall, insert_score_call, trim_call,
}
use ultimate_game_server.Leaderboard.Blacklists.{
  trim, split, note_part, configure_each, configure_blacklist,
}
use ultimate_game_server.Leaderboard.Scores.{record_key}
use mathlib.Core.Option
use native.Mathlib.Decide.{ℕ_discrete}
use text.Mathlib.TextEquality.{eq_iff}

abbrev entry : String → ℕ → RankEntry
entry o n = record { owner_id = o; score = pos n; subscore = pos 0 }

abbrev open_to_all : Blacklist
open_to_all = record { ids = []; everything = false }

abbrev season : LeaderboardExpiryKey
season = key_of "season" (pos 500)

cache_program : Unit {0}
unfolding new_skip_list new_node load_entry load_next set_next random_level walk search_levels
    find_update raise link unlink delete_locked count_to rank_of_locked delete_old add_entry
    insert_entry get_rank advance get_data_by_rank less by_key lookup insert delete String-discrete
    LeaderboardExpiryKey-discrete ℤ-discrete is_blacklisted get_or_new insert_score rank_of
    delete_score drop_where delete_leaderboard evict_partition trim_expired ranks_from fill_ranks
    load_each load_from_records data_by_rank numbered cache_step cache_run trim split note_part
    configure_each configure_blacklist ℕ_discrete
cache_program = tt

-- The test of the repository: the later, higher score pushes the first down.
abbrev cache_calls : List CacheCall
cache_calls =
    insert_score_call season (pos 1) (entry "a" 100) true []
    ∷ insert_score_call season (pos 1) (entry "b" 200) true (true ∷ [])
    ∷ trim_call (pos 499)
    ∷ []

pushed_down :
    (cache_run open_to_all cache_calls [] >>= λ g. rank_of open_to_all season "a" g) ≡ some 2
unfolding cache_program
pushed_down = refl

trimmed :
    (cache_run open_to_all (cache_calls ++ trim_call (pos 500) ∷ []) [] >>= λ g.
    rank_of open_to_all season "a" g)
    ≡ some 0
unfolding cache_program
trimmed = refl

cache_run-CacheOk_example :
    (g' : RankCache) × (cache_run open_to_all cache_calls [] ≡ some g') × CacheOk g'
cache_run-CacheOk_example = cache_run-CacheOk open_to_all cache_calls [] tt

insert_score-rank_of_example :
    (g' : RankCache) × (r : ℕ) × (insert_score open_to_all season
        (pos 1)
        (entry "a" 100)
        true
        (true ∷ [])
        []
      ≡ some (g', r))
    × CacheOk g'
    × (rank_of open_to_all season "a" g' ≡ some r)
insert_score-rank_of_example =
    insert_score-rank_of open_to_all season (pos 1) (entry "a" 100) true (true ∷ []) [] tt

abbrev row : String → ℕ → ℕ → LeaderboardRecord
row o n t = record {
  leaderboard_id = "season";
  owner_id = o;
  username = o;
  score = pos n;
  subscore = pos 0;
  num_score = pos 1;
  max_num_score = pos 10;
  metadata = "{}";
  create_time = pos t;
  update_time = pos t;
  expiry_time = pos 500;
  rank = pos 0;
}

abbrev rows : List LeaderboardRecord
rows = row "b" 200 7 ∷ row "a" 100 5 ∷ []

rows-Ordered : Ordered self (is_zero_ℤ (pos 1)) (record_entries rows)
unfolding cache_program
rows-Ordered = ground (arith, eq_iff "a" "b", eq_iff "b" "a")

load_from_records-fill_ranks_example :
    (g' : RankCache) × (load_from_records season (pos 1) true (λ _. []) rows []
      ≡ some (g', numbered 0 rows))
    × (fill_ranks season (numbered 0 rows) true g' ≡ some (numbered 0 rows))
load_from_records-fill_ranks_example =
    load_from_records-fill_ranks season (pos 1) (λ _. []) rows [] rows-Ordered

-- Two owners with the same scores, in the order of their update times, as `sortRecords` puts them:
-- the ranks that loading notes are not the ranks that the cache gives.
abbrev tied : List LeaderboardRecord
tied = row "b" 100 5 ∷ row "a" 100 7 ∷ []

noted_and_given : RankCache × List LeaderboardRecord → Option (List ℤ × ℕ)
noted_and_given p =
    Option.map (λ n. (map (λ r. r.rank) p.1, n)) (rank_of open_to_all season "b" p.0)

tied_ranks :
    (load_from_records season (pos 1) true (λ _. []) tied [] >>= noted_and_given)
    ≡ some (pos 1 ∷ pos 2 ∷ [], 2)
unfolding cache_program noted_and_given
tied_ranks = refl

blanks_and_star :
    (is_blacklisted (configure_blacklist " a, b ,,c") "b" ≡ true)
    × (is_blacklisted (configure_blacklist " a, b ,,c") "d" ≡ false)
    × (is_blacklisted (configure_blacklist "a,*") "d" ≡ true)
unfolding cache_program
blanks_and_star = (refl, refl, refl)
