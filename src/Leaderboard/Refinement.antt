-- ===== src/Leaderboard/Refinement.antt =====
-- The skip list of internal/leaderboard/admin.go against the ranking it stands for.
use ultimate_game_server.Prelude.{
  ℕ, ◌+◌, ◌≤◌, String, ◌≡◌, refl, sym, ap, ◌∙◌, inl, inr, Bool, true, false, not, ◌&&◌, some, List,
  [], ◌∷◌, arith, ltb, if◌then◌else◌, Bool-cases, Option-cases, ◌>>=◌, string_key,
}
use ultimate_game_server.Leaderboard.Entry.{RankEntry}
use ultimate_game_server.Leaderboard.SkipList.{
  max_level, random_level, delete_locked, rank_of_locked, delete_old, add_entry, insert_entry,
  get_rank, SkipList,
}
use ultimate_game_server.Leaderboard.Ranking.{without, without_owner}
use ultimate_game_server.Leaderboard.Towers.{Tower}
use ultimate_game_server.Leaderboard.SkipListOk.{address_of, tower_entry, entries, IsSkip}
use ultimate_game_server.Leaderboard.Adding.{with_tower}
use ultimate_game_server.Leaderboard.AddingOk.{new_tower, add_entry-IsSkip}
use ultimate_game_server.Leaderboard.Removing.{delete_nobody, delete_locked_lem, entry_of}
use ultimate_game_server.Leaderboard.Board.{
  rank_in, with_entry, without_entry, entries-without, entries-with, rank_from-entries,
}
use ultimate_game_server.Leaderboard.Ranks.{rank_of_locked_lem}

-- The nodes of the skip list carry these entries, in this order.
abbrev pub Represents : SkipList → List RankEntry → Type 0
Represents s l = (ts : List Tower) × IsSkip s ts × (entries ts ≡ l)

pub random_level-bounds :
    (coins : List Bool) (lvl : ℕ)
    → 1 ≤ lvl
    → lvl ≤ max_level
    → (1 ≤ random_level coins lvl) × (random_level coins lvl ≤ max_level)
unfolding random_level
random_level-bounds [] lvl l h = (l, h)
random_level-bounds (c ∷ cs) lvl l h = elim (Bool-cases (ltb lvl max_level && c)) [
  | inl q ↦ rw q (random_level-bounds cs (lvl + 1) (ground arith) (ground arith))
  | inr q ↦ rw q (l, h)
]

pub delete_old_lem :
    (s : SkipList) (ts : List Tower) (o : String)
    → IsSkip s ts
    → (s' : SkipList) × (delete_old o s ≡ some s')
      × (s'.sort_asc ≡ s.sort_asc)
      × (s'.enabled ≡ s.enabled)
      × IsSkip s' (without tower_entry s.sort_asc o ts)
unfolding delete_old
delete_old_lem s ts o ok =
    let (s', r, p, p', k) = delete_locked_lem s ts o ok in
    elim (Option-cases (address_of o ts)) [
      | inl q ↦ (
        s',
        rw (ok.owners o, q, delete_old) (sym (delete_nobody s o (ok.owners o ∙ q)) ∙ r),
        p,
        p',
        k,
      )
      | inr (a, q) ↦
          let (e, l, w) = entry_of s ts o ok a q in
          (s', rw (ok.owners o, q, delete_old, l, w) r, p, p', k)
    ]

-- What an operation does to the list, its settings kept.
abbrev pub Becomes : SkipList → List RankEntry → SkipList → Type 0
Becomes s l s' = (s'.sort_asc ≡ s.sort_asc) × (s'.enabled ≡ s.enabled) × Represents s' l

pub delete_locked-Represents :
    (s : SkipList) (l : List RankEntry) (o : String)
    → Represents s l
    → (s' : SkipList) × (delete_locked o s ≡ some s') × Becomes s (without_entry s.sort_asc o l) s'
delete_locked-Represents s l o (ts, ok, e) =
    let (s', r, p, p', k) = delete_locked_lem s ts o ok in
    (
      s',
      r,
      (
        p,
        p',
        (
          without tower_entry s.sort_asc o ts,
          k,
          entries-without s.sort_asc o ts ∙ ap (without_entry s.sort_asc o) e,
        ),
      ),
    )

pub rank_of_locked-Represents :
    (s : SkipList) (l : List RankEntry) (o : String)
    → Represents s l
    → rank_of_locked o s ≡ some (rank_in o l)
unfolding rank_in
rank_of_locked-Represents s l o (ts, ok, e) =
    rank_of_locked_lem s ts o ok ∙ ap some (rank_from-entries o 1 ts ∙ ap (rank_in o) e)

insert_run :
    (s s1 s2 : SkipList) (e : RankEntry) (coins : List Bool) (r : ℕ)
    → s.enabled ≡ true
    → delete_old e.owner_id s ≡ some s1
    → add_entry e (random_level coins 1) s1 ≡ some s2
    → rank_of_locked e.owner_id s2 ≡ some r
    → insert_entry e coins s ≡ some (s2, r)
unfolding insert_entry
insert_run s s1 s2 e coins r on d a k = rw (d, a, k, on) refl

-- When ranks are enabled, `Insert` returns, puts the entry at its place instead of an old one of
-- the owner, and gives the place.
pub insert_entry-Represents :
    (s : SkipList) (l : List RankEntry) (e : RankEntry) (coins : List Bool)
    → Represents s l
    → s.enabled ≡ true
    → (s' : SkipList) × (insert_entry e coins s
        ≡ some (s', rank_in e.owner_id (with_entry s.sort_asc e l)))
      × Becomes s (with_entry s.sort_asc e l) s'
insert_entry-Represents s l e coins (ts, ok, q) on =
    let (s1, d, p1, p1', ok1) = delete_old_lem s ts e.owner_id ok in
    let rest = without tower_entry s.sort_asc e.owner_id ts in
    let lvl = random_level coins 1 in
    let (s2, a, p2, p2', ok2) =
      add_entry-IsSkip s1 rest e lvl ok1 (random_level-bounds coins 1 (ground arith) (ground arith))
        (without_owner tower_entry s.sort_asc e.owner_id ts) in
    let n = new_tower s1 e lvl in
    let same_entries : entries (with_tower s1.sort_asc n rest) ≡ with_entry s.sort_asc e l =
      ap (λ asc. entries (with_tower asc n rest)) p1
      ∙ entries-with s.sort_asc n ts
      ∙ ap (with_entry s.sort_asc e) q in
    let k : Represents s2 (with_entry s.sort_asc e l) =
      (with_tower s1.sort_asc n rest, ok2, same_entries) in
    (
      s2,
      insert_run s s1 s2 e coins _ on d a
          (rank_of_locked-Represents s2 (with_entry s.sort_asc e l) e.owner_id k),
      (p2 ∙ p1, p2' ∙ p1', k),
    )

pub insert_entry_disabled :
    (e : RankEntry) (coins : List Bool) (s : SkipList)
    → s.enabled ≡ false
    → insert_entry e coins s ≡ some (s, 0)
unfolding insert_entry
insert_entry_disabled e coins s q =
    ap
      (λ b. if not b then some (s, 0) else do
        s1 ← delete_old e.owner_id s
        s2 ← add_entry e (random_level coins 1) s1
        rank ← rank_of_locked e.owner_id s2
        some (s2, rank))
      q

pub get_rank-Represents :
    (s : SkipList) (l : List RankEntry) (o : String)
    → Represents s l
    → get_rank o s ≡ some (if s.enabled then rank_in o l else 0)
unfolding get_rank
get_rank-Represents s l o k = ground (arith, rank_of_locked-Represents s l o k)
