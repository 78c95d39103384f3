-- ===== src/Leaderboard/RankCacheRuns.antt =====
-- internal/leaderboard/rank_cache.go: evictions, and sequences of operations.
use ultimate_game_server.Prelude.{
  ℕ, suc, ◌+◌, String, ◌≡◌, refl, sym, ◌∙◌, Bool, true, false, ◌&&◌, Option, none, some, List, [],
  ◌∷◌, arith, if◌then◌else◌, ◌>>=◌, same, ltb_ℤ, leb_ℤ, is_zero_ℤ, ℤ, pos, string_key,
}
use ultimate_game_server.Dict.{lookup, insert, delete, lookup-delete, Every-insert, Every-delete}
use ultimate_game_server.Leaderboard.Entry.{RankEntry}
use ultimate_game_server.Leaderboard.SkipList.{new_skip_list, SkipList}
use ultimate_game_server.Leaderboard.SkipListOk.{new_skip_list-IsSkip}
use ultimate_game_server.Leaderboard.Board.{with_entry}
use ultimate_game_server.Leaderboard.Refinement.{
  Represents, insert_entry-Represents, insert_entry_disabled,
}
use ultimate_game_server.Leaderboard.RankCache.{
  RankCache, entry_of_record, get_or_new, insert_score, delete_score, drop_where,
  delete_leaderboard, evict_partition, is_expired, trim_expired, set_rank, load_each,
  load_from_records, LeaderboardExpiryKey, RankPartition, Blacklist, LeaderboardRecord, expiry_key,
}
use ultimate_game_server.Leaderboard.RankCacheOk.{
  PartitionOk, CacheOk, insert_score-rank_of, delete_score-rank_of, lookup-drop_where,
  drop_where-CacheOk,
}

-- What an eviction leaves: `TrimExpired` takes the partitions of a past expiry, `DeleteLeaderboard`
-- those of the leaderboard, `EvictPartition` the one; all others are as before.
pub eviction_lem :
    (now : ℤ) (id : String) (old key : LeaderboardExpiryKey) (g : RankCache)
    → (lookup key (trim_expired now g) ≡ (
        if ltb_ℤ (pos 0) key.expiry_unix && leb_ℤ key.expiry_unix now then none else lookup key g))
      × (lookup key (delete_leaderboard id g)
          ≡ (if same key.leaderboard_id id then none else lookup key g))
      × (lookup key (evict_partition old g) ≡ (if same key old then none else lookup key g))
unfolding trim_expired delete_leaderboard evict_partition
eviction_lem now id old key g = (
  lookup-drop_where (is_expired now) key g,
  lookup-drop_where (λ k. same k.leaderboard_id id) key g,
  ground (arith, lookup-delete key old g),
)

load_each-Represents :
    (ranks : Bool) (coins : ℕ → List Bool) (i : ℕ) (rs : List LeaderboardRecord) (s : SkipList)
    (l : List RankEntry)
    → s.enabled ≡ ranks
    → Represents s l
    → (s' : SkipList) × (rs' : List LeaderboardRecord) × (l' : List RankEntry) × (load_each ranks
          coins i rs s
        ≡ some (s', rs'))
      × (s'.enabled ≡ ranks)
      × Represents s' l'
unfolding load_each
load_each-Represents ranks coins i [] s l q k = (s, [], l, refl, q, k)
load_each-Represents true coins i (r ∷ rs) s l q k =
    let e = entry_of_record r in
    let (s1, run, (p1, q1, k1)) = insert_entry-Represents s l e (coins i) k q in
    let (s2, rs', l', run', q2, k2) =
      load_each-Represents true coins (suc i) rs s1 (with_entry s.sort_asc e l) (q1 ∙ q) k1 in
    (s2, set_rank (pos (i + 1)) r ∷ rs', l', rw (run, run') refl, q2, k2)
load_each-Represents false coins i (r ∷ rs) s l q k =
    let (s2, rs', l', run', q2, k2) = load_each-Represents false coins (suc i) rs s l q k in
    (
      s2,
      r ∷ rs',
      l',
      rw (insert_entry_disabled (entry_of_record r) (coins i) s q, run') refl,
      q2,
      k2,
    )

pub load_from_records-CacheOk :
    (key : LeaderboardExpiryKey) (order : ℤ) (ranks : Bool) (coins : ℕ → List Bool)
    (rs : List LeaderboardRecord) (g : RankCache)
    → CacheOk g
    → (g' : RankCache) × (rs' : List LeaderboardRecord) × (load_from_records key order ranks coins
          rs g
        ≡ some (g', rs'))
      × CacheOk g'
unfolding load_from_records new_skip_list
load_from_records-CacheOk key order ranks coins rs g ok =
    let asc = is_zero_ℤ order in
    let (s, rs', l, run, on, k) =
      load_each-Represents ranks coins 0 rs (new_skip_list asc ranks) [] refl
        ([], new_skip_list-IsSkip asc ranks, refl) in
    let rc : RankPartition = record (get_or_new key order ranks g) { enabled = ranks; sl = s } in
    (insert key rc g, rs', rw run refl, Every-insert PartitionOk key rc g (l, k, sym on) ok)

-- The operations that change the cache.
pub data CacheCall : Type 0 where
  insert_score_call : LeaderboardExpiryKey → ℤ → RankEntry → Bool → List Bool → CacheCall
  delete_score_call : LeaderboardExpiryKey → String → CacheCall
  delete_leaderboard_call : String → CacheCall
  evict_call : LeaderboardExpiryKey → CacheCall
  trim_call : ℤ → CacheCall
  load_call : LeaderboardExpiryKey → ℤ → Bool → (ℕ → List Bool) → List LeaderboardRecord → CacheCall

unfoldable pub cache_step : Blacklist → CacheCall → RankCache → Option RankCache
cache_step black (insert_score_call key order e ranks coins) g = do
  (g', _) ← insert_score black key order e ranks coins g
  some g'
cache_step black (delete_score_call key o) g = delete_score key o g
cache_step black (delete_leaderboard_call id) g = some (delete_leaderboard id g)
cache_step black (evict_call key) g = some (evict_partition key g)
cache_step black (trim_call now) g = some (trim_expired now g)
cache_step black (load_call key order ranks coins rs) g = do
  (g', _) ← load_from_records key order ranks coins rs g
  some g'

unfoldable pub cache_run : Blacklist → List CacheCall → RankCache → Option RankCache
cache_run black [] g = some g
cache_run black (c ∷ cs) g = do g' ← cache_step black c g; cache_run black cs g'

cache_step_lem :
    (black : Blacklist) (c : CacheCall) (g : RankCache)
    → CacheOk g
    → (g' : RankCache) × (cache_step black c g ≡ some g') × CacheOk g'
unfolding cache_step delete_leaderboard evict_partition trim_expired
cache_step_lem black (insert_score_call key order e ranks coins) g ok =
    let (g', r, run, ok', _) = insert_score-rank_of black key order e ranks coins g ok in
    (g', rw run refl, ok')
cache_step_lem black (delete_score_call key o) g ok =
    let (g', run, ok', _) = delete_score-rank_of black key o g ok in (g', run, ok')
cache_step_lem black (delete_leaderboard_call id) g ok =
    let p : LeaderboardExpiryKey → Bool = λ k. same k.leaderboard_id id in
    (drop_where p g, refl, drop_where-CacheOk p g ok)
cache_step_lem black (evict_call key) g ok = (delete key g, refl, Every-delete PartitionOk key g ok)
cache_step_lem black (trim_call now) g ok =
    (drop_where (is_expired now) g, refl, drop_where-CacheOk (is_expired now) g ok)
cache_step_lem black (load_call key order ranks coins rs) g ok =
    let (g', rs', run, ok') = load_from_records-CacheOk key order ranks coins rs g ok in
    (g', rw run refl, ok')

-- Any sequence of operations on a well formed cache comes to an end without a fault, and the cache
-- is well formed after it: each of its skip lists stands for a ranking.
pub cache_run-CacheOk :
    (black : Blacklist) (cs : List CacheCall) (g : RankCache)
    → CacheOk g
    → (g' : RankCache) × (cache_run black cs g ≡ some g') × CacheOk g'
unfolding cache_run
cache_run-CacheOk black [] g ok = (g, refl, ok)
cache_run-CacheOk black (c ∷ cs) g ok =
    let (g1, r, ok1) = cache_step_lem black c g ok in
    let (g2, r', ok2) = cache_run-CacheOk black cs g1 ok1 in (g2, rw (r, r') refl, ok2)
