-- ===== src/Leaderboard/RankCache.antt =====
-- internal/leaderboard/rank_cache.go: `GlobalRankCache`, a skip list for each leaderboard and
-- expiry. `none` is a fault of a skip list; the coins of an insertion are an argument, and for
-- `LoadFromRecords` one list for each record.
use ultimate_game_server.Prelude.{
  ℕ, suc, ◌+◌, String, Bool, true, false, not, ◌&&◌, ◌||◌, Option, none, some, List, [], ◌∷◌, map,
  if◌then◌else◌, ◌>>=◌, String-discrete, same, Key, ltb_ℤ, leb_ℤ, is_zero_ℤ, ℤ, pos, string_key,
}
use ultimate_game_server.Dict.{Dict, lookup, has, insert, delete}
use ultimate_game_server.Leaderboard.Entry.{RankEntry}
use ultimate_game_server.Leaderboard.SkipList.{
  new_skip_list, delete_locked, insert_entry, get_rank, get_data_by_rank, SkipList,
}
use ultimate_game_server.Dict.Sets.{KeySet}
use ultimate_game_server.Presence.Stream.{ℤ-discrete, stream_key}

pub record LeaderboardExpiryKey : Type 0 where
  pub leaderboard_id : String
  pub expiry_unix : ℤ

unfoldable pub LeaderboardExpiryKey-discrete : Discrete LeaderboardExpiryKey
LeaderboardExpiryKey-discrete = hlevel (ℤ-discrete, String-discrete)

instance abbrev pub expiry_key : Key LeaderboardExpiryKey
expiry_key = record { dec = LeaderboardExpiryKey-discrete }

pub record RankPartition : Type 0 where
  pub sort_asc : Bool
  pub enabled : Bool
  pub sl : SkipList

abbrev pub RankCache : Type 0
RankCache = Dict LeaderboardExpiryKey RankPartition

-- The identifiers without a rank cache, and if that is all of them.
pub record Blacklist : Type 0 where
  pub ids : KeySet String
  pub everything : Bool

unfoldable pub is_blacklisted : Blacklist → String → Bool
is_blacklisted b id = b.everything || has id b.ids

pub record LeaderboardRecord : Type 0 where
  pub leaderboard_id : String
  pub owner_id : String
  pub username : String
  pub score : ℤ
  pub subscore : ℤ
  pub num_score : ℤ
  pub max_num_score : ℤ
  pub metadata : String
  pub create_time : ℤ
  pub update_time : ℤ
  pub expiry_time : ℤ
  pub rank : ℤ

abbrev pub key_of : String → ℤ → LeaderboardExpiryKey
key_of id expiry = record { leaderboard_id = id; expiry_unix = expiry }

abbrev pub entry_of_record : LeaderboardRecord → RankEntry
entry_of_record r = record { owner_id = r.owner_id; score = r.score; subscore = r.subscore }

-- The partition that `getOrCreate` returns; `sortOrder == SortOrderAscending` is order 0.
unfoldable pub get_or_new : LeaderboardExpiryKey → ℤ → Bool → RankCache → RankPartition
get_or_new key order ranks g = elim (lookup key g) [
  | some rc ↦ rc
  | none ↦ record {
    sort_asc = is_zero_ℤ order;
    enabled = ranks;
    sl = new_skip_list (is_zero_ℤ order) ranks;
  }
]

abbrev pub set_enabled : Bool → RankPartition → RankPartition
set_enabled b rc = record rc { enabled = b; sl = record rc.sl { enabled = b } }

-- `Insert`
unfoldable pub insert_score :
    Blacklist
    → LeaderboardExpiryKey
    → ℤ
    → RankEntry
    → Bool
    → List Bool
    → RankCache
    → Option (RankCache × ℕ)
unfolding is_blacklisted
insert_score black key order e ranks coins g =
    if is_blacklisted black key.leaderboard_id
    then some (g, 0)
    else let rc = get_or_new key order ranks g in
      if not ranks then some (insert key (set_enabled false rc) g, 0) else do
        (sl, rank) ← insert_entry e coins (set_enabled true rc).sl
        some (insert key (record rc { enabled = true; sl = sl }) g, rank)

-- `GetRank`
unfoldable pub rank_of : Blacklist → LeaderboardExpiryKey → String → RankCache → Option ℕ
unfolding is_blacklisted
rank_of black key owner g =
    if is_blacklisted black key.leaderboard_id then some 0 else elim (lookup key g) [
      | none ↦ some 0
      | some rc ↦ if not rc.enabled then some 0 else get_rank owner rc.sl
    ]

-- `Delete`
unfoldable pub delete_score : LeaderboardExpiryKey → String → RankCache → Option RankCache
delete_score key owner g = elim (lookup key g) [
  | none ↦ some g
  | some rc ↦ do sl ← delete_locked owner rc.sl; some (insert key (record rc { sl = sl }) g)
]

-- The loops that delete from the map while they range over it.
unfoldable pub drop_where : (LeaderboardExpiryKey → Bool) → RankCache → RankCache
drop_where p [] = []
drop_where p ((k, rc) ∷ g) = if p k then drop_where p g else (k, rc) ∷ drop_where p g

unfoldable pub delete_leaderboard : String → RankCache → RankCache
delete_leaderboard id g = drop_where (λ k. same k.leaderboard_id id) g

unfoldable pub evict_partition : LeaderboardExpiryKey → RankCache → RankCache
evict_partition key g = delete key g

abbrev pub is_expired : ℤ → LeaderboardExpiryKey → Bool
is_expired now k = ltb_ℤ (pos 0) k.expiry_unix && leb_ℤ k.expiry_unix now

unfoldable pub trim_expired : ℤ → RankCache → RankCache
trim_expired now g = drop_where (is_expired now) g

abbrev pub set_rank : ℤ → LeaderboardRecord → LeaderboardRecord
set_rank n r = record r { rank = n }

unfoldable pub ranks_from : SkipList → List LeaderboardRecord → Option (List LeaderboardRecord)
ranks_from sl [] = some []
ranks_from sl (r ∷ rs) = do
  n ← get_rank r.owner_id sl
  rest ← ranks_from sl rs
  some (set_rank (pos n) r ∷ rest)

-- `FillRanks`
unfoldable pub fill_ranks :
    LeaderboardExpiryKey
    → List LeaderboardRecord
    → Bool
    → RankCache
    → Option (List LeaderboardRecord)
fill_ranks key rs ranks g =
    if not ranks
    then some (map (set_rank (pos 0)) rs)
    else elim (lookup key g) [ none ↦ some rs | some rc ↦ ranks_from rc.sl rs ]

-- The loop of `LoadFromRecords` from record `i`.
unfoldable pub load_each :
    Bool
    → (ℕ → List Bool)
    → ℕ
    → List LeaderboardRecord
    → SkipList
    → Option (SkipList × List LeaderboardRecord)
load_each ranks coins i [] sl = some (sl, [])
load_each ranks coins i (r ∷ rs) sl = do
  (sl1, _) ← insert_entry (entry_of_record r) (coins i) sl
  (sl2, rest) ← load_each ranks coins (suc i) rs sl1
  some (sl2, (if ranks then set_rank (pos (i + 1)) r else r) ∷ rest)

unfoldable pub load_from_records :
    LeaderboardExpiryKey
    → ℤ
    → Bool
    → (ℕ → List Bool)
    → List LeaderboardRecord
    → RankCache
    → Option (RankCache × List LeaderboardRecord)
load_from_records key order ranks coins rs g =
    let rc = get_or_new key order ranks g in
    do
      (sl, rs') ← load_each ranks coins 0 rs (new_skip_list (is_zero_ℤ order) ranks)
      some (insert key (record rc { enabled = ranks; sl = sl }) g, rs')

-- `GetDataByRank`; the inner `none` is `false`.
unfoldable pub data_by_rank : LeaderboardExpiryKey → ℤ → RankCache → Option (Option RankEntry)
data_by_rank key rank g = elim (lookup key g) [
  | none ↦ some none
  | some rc ↦ if not rc.enabled then some none else get_data_by_rank rank rc.sl
]
