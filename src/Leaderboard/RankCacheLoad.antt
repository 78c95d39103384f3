-- ===== src/Leaderboard/RankCacheLoad.antt =====
-- internal/leaderboard/rank_cache.go: loading a partition from sorted records, filling in ranks.
use ultimate_game_server.Prelude.{
  ℕ, suc, ◌+◌, ◌≡◌, refl, sym, ap, ◌∙◌, Bool, true, some, List, [], ◌∷◌, ◌++◌, map, arith, length,
  All, length-append, All-map, is_zero_ℤ, ℤ, pos, string_key,
}
use ultimate_game_server.Dict.{insert, lookup-insert_self}
use ultimate_game_server.Leaderboard.Entry.{RankEntry}
use ultimate_game_server.Leaderboard.SkipList.{new_skip_list, get_rank, SkipList}
use ultimate_game_server.Leaderboard.Ranking.{
  lower, upper, Follow, Ordered, Ordered-append, without,
}
use ultimate_game_server.Leaderboard.SkipListOk.{new_skip_list-IsSkip}
use ultimate_game_server.Leaderboard.Board.{self, rank_from, rank_in, with_entry}
use ultimate_game_server.Leaderboard.Refinement.{
  Represents, insert_entry-Represents, get_rank-Represents,
}
use ultimate_game_server.Leaderboard.RankCache.{
  RankCache, entry_of_record, get_or_new, set_rank, ranks_from, fill_ranks, load_each,
  load_from_records, LeaderboardExpiryKey, RankPartition, LeaderboardRecord, expiry_key,
}
use mathlib.Core.Path.{subst}
use mathlib.Core.List.{append_assoc, append-nil}

-- The records numbered from `i + 1`.
unfoldable pub numbered : ℕ → List LeaderboardRecord → List LeaderboardRecord
numbered i [] = []
numbered i (r ∷ rs) = set_rank (pos (i + 1)) r ∷ numbered (suc i) rs

abbrev pub record_entries : List LeaderboardRecord → List RankEntry
record_entries rs = map entry_of_record rs

module _ (asc : Bool) where
  -- An entry that all the others are better than comes last.
  abbrev pub Ahead : RankEntry → RankEntry → Type 0
  Ahead e x = Follow self asc x e

  lower_last :
      (e : RankEntry) (l : List RankEntry)
      → All (Ahead e) l
      → (lower self asc e l ++ e ∷ upper self asc e l) ≡ l ++ e ∷ []
  unfolding lower upper
  lower_last e [] a = refl
  lower_last e (x ∷ l) a = ground (arith, lower_last e l)

  without_other :
      (e : RankEntry) (l : List RankEntry) → All (Ahead e) l → without self asc e.owner_id l ≡ l
  unfolding without
  without_other e [] a = refl
  without_other e (x ∷ l) a = ground (arith, without_other e l)

  with_last :
      (e : RankEntry) (l : List RankEntry) → All (Ahead e) l → with_entry asc e l ≡ l ++ e ∷ []
  unfolding with_entry
  with_last e l a = rw (without_other e l a) (lower_last e l a)

  rank_behind :
      (e : RankEntry) (l m : List RankEntry) (k : ℕ)
      → All (Ahead e) l
      → rank_from self e.owner_id k (l ++ e ∷ m) ≡ k + length l
  unfolding rank_from
  rank_behind e [] m k a = ground arith
  rank_behind e (x ∷ l) m k a = ground (arith, rank_behind e l m (k + 1))

  All-Ahead :
      (e : RankEntry) (l m : List RankEntry) → Ordered self asc (l ++ e ∷ m) → All (Ahead e) l
  All-Ahead e l m o =
      let (_, _, a) = Ordered-append self asc l (e ∷ m) o in
      All-map (λ x. All (Follow self asc x) (e ∷ m)) (Ahead e) (λ x p. p.0) l a

  load_each_lem :
      (coins : ℕ → List Bool) (i : ℕ) (rs : List LeaderboardRecord) (s : SkipList)
      (l : List RankEntry)
      → s.sort_asc ≡ asc
      → s.enabled ≡ true
      → Represents s l
      → Ordered self asc (l ++ record_entries rs)
      → (s' : SkipList) × (load_each true coins i rs s ≡ some (s', numbered i rs))
        × (s'.enabled ≡ true)
        × Represents s' (l ++ record_entries rs)
  unfolding load_each numbered
  load_each_lem coins i [] s l p q k o = (s, refl, q, subst (Represents s) (sym (append-nil l)) k)
  load_each_lem coins i (r ∷ rs) s l p q k o =
      let e = entry_of_record r in
      let (s1, run, (p1, q1, k1)) = insert_entry-Represents s l e (coins i) k q in
      let last_place : with_entry s.sort_asc e l ≡ l ++ e ∷ [] =
        ap (λ b. with_entry b e l) p ∙ with_last e l (All-Ahead e l (record_entries rs) o) in
      let joined = append_assoc l (e ∷ []) (record_entries rs) in
      let (s2, run', q2, k2) =
        load_each_lem coins (suc i) rs s1 (l ++ e ∷ []) (p1 ∙ p) (q1 ∙ q)
          (subst (Represents s1) last_place k1) (subst (Ordered self asc) (sym joined) o) in
      (s2, rw (run, run') refl, q2, subst (Represents s2) joined k2)

  ranks_from_lem :
      (i : ℕ) (rs : List LeaderboardRecord) (s : SkipList) (l : List RankEntry)
      → s.enabled ≡ true
      → Represents s (l ++ record_entries rs)
      → Ordered self asc (l ++ record_entries rs)
      → length l ≡ i
      → ranks_from s (numbered i rs) ≡ some (numbered i rs)
  unfolding ranks_from numbered rank_in
  ranks_from_lem i [] s l q k o n = refl
  ranks_from_lem i (r ∷ rs) s l q k o n =
      let e = entry_of_record r in
      let m = record_entries rs in
      let joined = append_assoc l (e ∷ []) m in
      let ih =
        ranks_from_lem (suc i) rs s (l ++ e ∷ []) q (subst (Represents s) (sym joined) k)
          (subst (Ordered self asc) (sym joined) o) (omega (arith, length-append l (e ∷ []), n)) in
      let rank : get_rank r.owner_id s ≡ some (i + 1) =
        get_rank-Represents s (l ++ e ∷ m) r.owner_id k
        ∙ ground (arith, q, rank_behind e l m 1 (All-Ahead e l m o), n) in
      rw (rank, ih) refl

-- A partition loaded from records that are sorted, best first and one of each owner, gives them
-- the ranks 1, 2, 3 and so on, and `FillRanks` finds nothing to change in them.
pub load_from_records-fill_ranks :
    (key : LeaderboardExpiryKey) (order : ℤ) (coins : ℕ → List Bool) (rs : List LeaderboardRecord)
    (g : RankCache)
    → Ordered self (is_zero_ℤ order) (record_entries rs)
    → (g' : RankCache) × (load_from_records key order true coins rs g ≡ some (g', numbered 0 rs))
      × (fill_ranks key (numbered 0 rs) true g' ≡ some (numbered 0 rs))
unfolding load_from_records fill_ranks new_skip_list
load_from_records-fill_ranks key order coins rs g o =
    let asc = is_zero_ℤ order in
    let (s, run, on, k) =
      load_each_lem asc coins 0 rs (new_skip_list asc true) [] refl refl
        ([], new_skip_list-IsSkip asc true, refl) o in
    let rc : RankPartition = record (get_or_new key order true g) { enabled = true; sl = s } in
    (
      insert key rc g,
      rw run refl,
      rw (lookup-insert_self key rc g) (ranks_from_lem asc 0 rs s [] on k o refl),
    )
