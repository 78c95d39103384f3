-- ===== src/Leaderboard/RankCacheOk.antt =====
-- internal/leaderboard/rank_cache.go: the cache stays well formed, and no operation faults.
use ultimate_game_server.Prelude.{
  ℕ, ◌+◌, String, ◌≡◌, refl, sym, ap, ◌∙◌, inl, inr, Bool, true, false, not, Option, none, some,
  List, [], ◌∷◌, arith, if◌then◌else◌, Bool-cases, Option-cases, if_ind, ◌>>=◌, is_zero_ℤ, ℤ,
  string_key,
}
use ultimate_game_server.Dict.{
  lookup, insert, lookup-insert_self, Every, Every-insert, Every-lookup,
}
use ultimate_game_server.Leaderboard.Entry.{RankEntry}
use ultimate_game_server.Leaderboard.SkipList.{new_skip_list, insert_entry, get_rank}
use ultimate_game_server.Leaderboard.Ranking.{without}
use ultimate_game_server.Leaderboard.SkipListOk.{new_skip_list-IsSkip}
use ultimate_game_server.Leaderboard.Board.{self, rank_from, rank_in, with_entry, without_entry}
use ultimate_game_server.Leaderboard.Refinement.{
  Represents, delete_locked-Represents, insert_entry-Represents, get_rank-Represents,
}
use ultimate_game_server.Leaderboard.RankCache.{
  expiry_key, RankCache, is_blacklisted, get_or_new, set_enabled, insert_score, rank_of,
  delete_score, drop_where, LeaderboardExpiryKey, RankPartition, Blacklist,
}

-- The skip list stands for a ranking, and both flags agree.
abbrev pub PartitionOk : LeaderboardExpiryKey → RankPartition → Type 0
PartitionOk _ rc = (l : List RankEntry) × Represents rc.sl l × (rc.enabled ≡ rc.sl.enabled)

abbrev pub CacheOk : RankCache → Type 0
CacheOk g = Every PartitionOk g

get_or_new-Ok :
    (key : LeaderboardExpiryKey) (order : ℤ) (ranks : Bool) (g : RankCache)
    → CacheOk g
    → PartitionOk key (get_or_new key order ranks g)
unfolding get_or_new new_skip_list
get_or_new-Ok key order ranks g ok = elim (Option-cases (lookup key g)) [
  | inl q ↦ rw (q, get_or_new) ([], ([], new_skip_list-IsSkip (is_zero_ℤ order) ranks, refl), refl)
  | inr (rc, q) ↦ rw (q, get_or_new) (Every-lookup PartitionOk key rc g q ok)
]

-- Switching ranks on or off leaves the entries.
set_enabled-Represents :
    (b : Bool) (rc : RankPartition) (l : List RankEntry)
    → Represents rc.sl l
    → Represents (set_enabled b rc).sl l
set_enabled-Represents b rc l (ts, ok, e) = (
  ts,
  record {
    linked = ok.linked;
    levels = ok.levels;
    level_ok = ok.level_ok;
    owners = ok.owners;
    size_ok = ok.size_ok;
  },
  e,
)

rank_at :
    (black : Blacklist) (key : LeaderboardExpiryKey) (o : String) (g : RankCache)
    (rc : RankPartition)
    → is_blacklisted black key.leaderboard_id ≡ false
    → lookup key g ≡ some rc
    → rank_of black key o g ≡ (if not rc.enabled then some 0 else get_rank o rc.sl)
unfolding rank_of
rank_at black key o g rc b l = rw (b, l, rank_of) refl

rank_blacklisted :
    (black : Blacklist) (key : LeaderboardExpiryKey) (o : String) (g : RankCache)
    → is_blacklisted black key.leaderboard_id ≡ true
    → rank_of black key o g ≡ some 0
unfolding rank_of
rank_blacklisted black key o g b = rw b refl

rank_missing :
    (black : Blacklist) (key : LeaderboardExpiryKey) (o : String) (g : RankCache)
    → lookup key g ≡ none
    → rank_of black key o g ≡ some 0
unfolding rank_of
rank_missing black key o g l = elim (Bool-cases (is_blacklisted black key.leaderboard_id)) [
  | inl b ↦ rank_blacklisted black key o g b
  | inr b ↦ rw (b, l, rank_of) refl
]

-- An operation returns, the cache is well formed after it, and the owner's rank is what it says.
abbrev Inserted : Blacklist → LeaderboardExpiryKey → String → Option (RankCache × ℕ) → Type 0
Inserted black key o result =
    (g' : RankCache) × (r : ℕ) × (result ≡ some (g', r))
    × CacheOk g'
    × (rank_of black key o g' ≡ some r)

insert_enabled :
    (black : Blacklist) (key : LeaderboardExpiryKey) (e : RankEntry) (coins : List Bool)
    (g : RankCache) (rc : RankPartition)
    → is_blacklisted black key.leaderboard_id ≡ false
    → CacheOk g
    → PartitionOk key rc
    → Inserted black key e.owner_id (do
      (sl, rank) ← insert_entry e coins (set_enabled true rc).sl
      some (insert key (record rc { enabled = true; sl = sl }) g, rank))
insert_enabled black key e coins g rc b ok (l, k, _) =
    let s = (set_enabled true rc).sl in
    let (s', r, (p, q, k')) =
      insert_entry-Represents s l e coins (set_enabled-Represents true rc l k) refl in
    let board = with_entry s.sort_asc e l in
    let rc' : RankPartition = record rc { enabled = true; sl = s' } in
    (
      insert key rc' g,
      rank_in e.owner_id board,
      rw r refl,
      Every-insert PartitionOk key rc' g (board, k', sym q) ok,
      rank_at black key e.owner_id (insert key rc' g) rc' b (lookup-insert_self key rc' g)
          ∙ get_rank-Represents s' board e.owner_id k'
          ∙ rw q refl,
    )

-- Whatever `Insert` meets, it returns, and `GetRank` gives the rank it returned.
pub insert_score-rank_of :
    (black : Blacklist) (key : LeaderboardExpiryKey) (order : ℤ) (e : RankEntry) (ranks : Bool)
    (coins : List Bool) (g : RankCache)
    → CacheOk g
    → (g' : RankCache) × (r : ℕ) × (insert_score black key order e ranks coins g ≡ some (g', r))
      × CacheOk g'
      × (rank_of black key e.owner_id g' ≡ some r)
unfolding insert_score
insert_score-rank_of black key order e true coins g ok =
    elim (Bool-cases (is_blacklisted black key.leaderboard_id)) [
      | inl b ↦ (g, 0, rw b refl, ok, rank_blacklisted black key e.owner_id g b)
      | inr b ↦ rw b (
          insert_enabled black key e coins g (get_or_new key order true g) b ok
            (get_or_new-Ok key order true g ok))
    ]
insert_score-rank_of black key order e false coins g ok =
    elim (Bool-cases (is_blacklisted black key.leaderboard_id)) [
      | inl b ↦ (g, 0, rw b refl, ok, rank_blacklisted black key e.owner_id g b)
      | inr b ↦
          let rc = get_or_new key order false g in
          let (l, k, _) = get_or_new-Ok key order false g ok in
          let rc' = set_enabled false rc in
          (
            insert key rc' g,
            0,
            rw b refl,
            Every-insert PartitionOk key rc' g (l, set_enabled-Represents false rc l k, refl) ok,
            rank_at black key e.owner_id (insert key rc' g) rc' b (lookup-insert_self key rc' g),
          )
    ]

rank_without :
    (asc : Bool) (o : String) (l : List RankEntry) (k : ℕ)
    → rank_from self o k (without_entry asc o l) ≡ 0
unfolding rank_from without_entry without
rank_without asc o [] k = refl
rank_without asc o (e ∷ l) k = ground (arith, rank_without asc o l k, rank_without asc o l (k + 1))

-- `Delete` returns, and the owner has no rank after it.
pub delete_score-rank_of :
    (black : Blacklist) (key : LeaderboardExpiryKey) (o : String) (g : RankCache)
    → CacheOk g
    → (g' : RankCache) × (delete_score key o g ≡ some g')
      × CacheOk g'
      × (rank_of black key o g' ≡ some 0)
unfolding rank_in delete_score
delete_score-rank_of black key o g ok = elim (Option-cases (lookup key g)) [
  | inl q ↦ (g, rw (q, delete_score) refl, ok, rank_missing black key o g q)
  | inr (rc, q) ↦
      let (l, k, f) = Every-lookup PartitionOk key rc g q ok in
      let (s', r, (p, p', k')) = delete_locked-Represents rc.sl l o k in
      let rc' : RankPartition = record rc { sl = s' } in
      let l' = without_entry rc.sl.sort_asc o l in
      (
        insert key rc' g,
        rw (q, delete_score, r) refl,
        Every-insert PartitionOk key rc' g (l', k', f ∙ sym p') ok,
        elim (Bool-cases (is_blacklisted black key.leaderboard_id)) [
          | inl b ↦ rank_blacklisted black key o (insert key rc' g) b
          | inr b ↦
              rank_at black key o (insert key rc' g) rc' b (lookup-insert_self key rc' g)
              ∙ ground (arith, get_rank-Represents s' l' o k', rank_without rc.sl.sort_asc o l 1)
        ],
      )
]

-- The loops that delete keep the other partitions.
pub lookup-drop_where :
    (p : LeaderboardExpiryKey → Bool) (key : LeaderboardExpiryKey) (g : RankCache)
    → lookup key (drop_where p g) ≡ (if p key then none else lookup key g)
unfolding lookup drop_where
lookup-drop_where p key [] = ground arith
lookup-drop_where p key ((k, rc) ∷ g) = elim (expiry_key.dec key k) [
  | yes q ↦ ground (arith, ap p q, lookup-drop_where p key g)
  | no q ↦ ground (arith, lookup-drop_where p key g)
]

pub drop_where-CacheOk :
    (p : LeaderboardExpiryKey → Bool) (g : RankCache) → CacheOk g → CacheOk (drop_where p g)
unfolding drop_where
drop_where-CacheOk p [] ok = tt
drop_where-CacheOk p ((k, rc) ∷ g) ok =
    if_ind CacheOk (p k) (λ e. drop_where-CacheOk p g ok.1) λ e. (ok.0, drop_where-CacheOk p g ok.1)
