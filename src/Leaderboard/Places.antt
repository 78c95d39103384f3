-- ===== src/Leaderboard/Places.antt =====
-- What the ranks of internal/leaderboard/admin.go mean.
use ultimate_game_server.Prelude.{
  ℕ, suc, ◌+◌, ◌≤◌, String, ◌≡◌, refl, sym, ap, ◌∙◌, inl, inr, Bool, true, some, List, [], ◌∷◌,
  arith, if◌then◌else◌, Bool-cases, Option-cases, All, string_key, pos,
}
use ultimate_game_server.Leaderboard.Entry.{less, RankEntry}
use ultimate_game_server.Leaderboard.SkipList.{insert_entry, get_rank, get_data_by_rank, SkipList}
use ultimate_game_server.Leaderboard.Ranking.{
  lower, upper, Ordered, All-upper, without, without-Ordered, without_owner,
}
use ultimate_game_server.Leaderboard.Towers.{Tower}
use ultimate_game_server.Leaderboard.Walks.{NotBetter}
use ultimate_game_server.Leaderboard.SkipListOk.{address_of, tower_entry, entries}
use ultimate_game_server.Leaderboard.Adding.{OtherOwner, with_tower}
use ultimate_game_server.Leaderboard.AddingOk.{new_tower}
use ultimate_game_server.Leaderboard.Board.{
  rank_from, get_elem?, rank_in, with_entry, without_entry, entry_at, better_count, entries-without,
  entries-with, rank_from-entries,
}
use ultimate_game_server.Leaderboard.Ranks.{rank_from_nobody, get_data_by_rank_lem}
use ultimate_game_server.Leaderboard.Refinement.{
  Represents, insert_entry-Represents, get_rank-Represents,
}
use mathlib.Core.Path.{subst}

none_better :
    (asc : Bool) (e : RankEntry) (ts : List Tower)
    → All (NotBetter asc e) ts
    → better_count asc e (entries ts) ≡ 0
unfolding better_count
none_better asc e [] a = refl
none_better asc e (t ∷ ts) a = ground (arith, none_better asc e ts)

rank_with :
    (asc : Bool) (n : Tower) (ts : List Tower) (k : ℕ)
    → Ordered tower_entry asc ts
    → All (OtherOwner n.entry) ts
    → rank_from tower_entry n.entry.owner_id k (with_tower asc n ts)
      ≡ k + better_count asc n.entry (entries ts)
unfolding rank_from lower upper better_count
rank_with asc n [] k o w = ground arith
rank_with asc n (t ∷ ts) k o w = elim (Bool-cases (less asc t.entry n.entry)) [
  | inl p ↦ ground (arith, rank_with asc n ts (k + 1) o.1 w.1)
  | inr p ↦
      let whole : upper tower_entry asc n.entry (t ∷ ts) ≡ t ∷ ts = rw p refl in
      let a : All (NotBetter asc n.entry) (t ∷ ts) =
        subst (All (NotBetter asc n.entry)) whole (All-upper tower_entry asc n.entry (t ∷ ts) o) in
      ground (arith, none_better asc n.entry ts a.1)
]

place_of :
    (o : String) (a k : ℕ) (ts : List Tower)
    → address_of o ts ≡ some a
    → (i : ℕ) × (e : RankEntry) × (rank_from tower_entry o k ts ≡ k + i)
      × (get_elem? (entries ts) i ≡ some e)
      × (e.owner_id ≡ o)
unfolding address_of rank_from get_elem?
place_of o a k [] e = ground arith
place_of o a k (t ∷ ts) e = elim (string_key.dec o t.entry.owner_id) [
  | yes q ↦ (0, t.entry, ground arith, refl, sym q)
  | no q ↦
      let (i, x, p, g, w) = place_of o a (k + 1) ts (ground arith) in (suc i, x, ground arith, g, w)
]

-- Ranks and entries at a rank fit: if an owner has a rank, the entry at that rank is the owner's.
pub get_data_by_rank-get_rank :
    (s : SkipList) (l : List RankEntry) (o : String) (r : ℕ)
    → Represents s l
    → get_rank o s ≡ some r
    → 1 ≤ r
    → (e : RankEntry) × (get_data_by_rank (pos r) s ≡ some (some e)) × (e.owner_id ≡ o)
unfolding rank_in entry_at
get_data_by_rank-get_rank s l o r (ts, ok, z) h p =
    let given : some r ≡ some (if s.enabled then rank_in o l else 0) =
      sym h ∙ get_rank-Represents s l o (ts, ok, z) in
    let rank : rank_in o l ≡ rank_from tower_entry o 1 ts =
      ap (rank_in o) (sym z) ∙ sym (rank_from-entries o 1 ts) in
    let on : s.enabled ≡ true = ground (arith, given) in
    elim (Option-cases (address_of o ts)) [
      | inl q ↦ ground (arith, given, rank, rank_from_nobody o 1 ts q)
      | inr (a, q) ↦
          let (i, e, f, g, w) = place_of o a 1 ts q in
          let r_is : r ≡ 1 + i = ground (arith, given, rank, f) in
          (e, ground (arith, get_data_by_rank_lem s ts (pos r) ok, g, r_is), w)
    ]

-- With ranks enabled, the rank that `Insert` gives in a skip list that stands for a ranking is one more than the number of the better entries of other owners.
pub insert_entry-better_count :
    (s : SkipList) (l : List RankEntry) (e : RankEntry) (coins : List Bool)
    → Represents s l
    → s.enabled ≡ true
    → (s' : SkipList) × (insert_entry e coins s
        ≡ some (s', 1 + better_count s.sort_asc e (without_entry s.sort_asc e.owner_id l)))
unfolding rank_in
insert_entry-better_count s l e coins (ts, ok, z) on =
    let asc = s.sort_asc in
    let o = e.owner_id in
    let (s', r, _) = insert_entry-Represents s l e coins (ts, ok, z) on in
    let n = new_tower s e 1 in
    let rest = without tower_entry asc o ts in
    let places : entries (with_tower asc n rest) ≡ with_entry asc e l =
      entries-with asc n ts ∙ ap (with_entry asc e) z in
    let rank : rank_in o (with_entry asc e l) ≡ 1 + better_count asc e (without_entry asc o l) =
      ap (rank_in o) (sym places)
      ∙ sym (rank_from-entries o 1 (with_tower asc n rest))
      ∙ rank_with asc n rest 1 (without-Ordered tower_entry asc o ts ok.linked.ordered)
          (without_owner tower_entry asc o ts)
      ∙ ap (λ m. 1 + better_count asc e m)
          (entries-without asc o ts ∙ ap (without_entry asc o) z) in
    (s', r ∙ ap (λ k. some (s', k)) rank)
