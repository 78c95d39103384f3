-- ===== src/Leaderboard/Found.antt =====
-- The array `update` that the search of internal/leaderboard/admin.go fills.
use ultimate_game_server.Prelude.{
  ℕ, zero, suc, ◌≤◌, ◌<◌, ◌≡◌, refl, ap, ◌∙◌, Bool, Option, some, List, ◌++◌, arith, length, All,
  All-append, All-map, All-and, string_key,
}
use ultimate_game_server.Leaderboard.Entry.{RankEntry}
use ultimate_game_server.Leaderboard.Nodes.{put, Heap}
use ultimate_game_server.Leaderboard.SkipList.{max_level, walk, search_levels}
use ultimate_game_server.Leaderboard.Towers.{tall, All-tall, last, Chain, Tower}
use ultimate_game_server.Leaderboard.Walks.{Holds, links, Better, NotBetter, walk_lem, resume}

module _ (asc : Bool) (h : Heap) (e : RankEntry) (head : ℕ) (xs ys : List Tower) where
  -- The array from level `i` down holds the last better node of each level, and above `i` it is
  -- as it was.
  abbrev pub Filled : (ℕ → Option ℕ) → (ℕ → Option ℕ) → ℕ → Type 0
  Filled update update' i =
      ((j : ℕ) → j < i → update' j ≡ some (last head (tall j xs)))
      × ((j : ℕ) → i ≤ j → update' j ≡ update j)

  module _ (k : ℕ)
      (chains : (i : ℕ) → i < max_level → Chain (links h i) head (tall i xs ++ tall i ys))
      (sx : All (Holds h) xs) (sy : All (Holds h) ys) (bx : All (Better asc e) xs)
      (by : All (NotBetter asc e) ys) (enough : length xs < k) where
    walk_level :
        (i : ℕ)
        → i < max_level
        → walk asc h e i k (last head (tall (suc i) xs)) ≡ some (last head (tall i xs))
    walk_level i l =
        let P : Tower → Type 0 = λ t. Holds h t × Better asc e t in
        let (cs, c, z, a, n) =
          resume (links h i) P i head xs (tall i ys) (chains i l)
            (All-and (Holds h) (Better asc e) P (λ t p q. (p, q)) xs sx bx) in
        walk_lem asc h e i k (last head (tall (suc i) xs)) cs (tall i ys) c
          (All-append (Holds h) cs (tall i ys) (All-map P (Holds h) (λ t p. p.0) cs a)
            (All-tall (Holds h) i ys sy))
          (All-map P (Better asc e) (λ t p. p.1) cs a) (All-tall (NotBetter asc e) i ys by)
          (ground arith)
        ∙ ap some z

    pub search_levels_lem :
        (i : ℕ) (update : ℕ → Option ℕ)
        → i ≤ max_level
        → (update' : ℕ → Option ℕ) × (search_levels asc h e k i (last head (tall i xs)) update
            ≡ some update')
          × Filled update update' i
    unfolding search_levels
    search_levels_lem zero update l = (update, refl, (λ j b. ground arith, λ j b. refl))
    search_levels_lem (suc i) update l =
        let y = last head (tall i xs) in
        let (update', r, (f, g)) = search_levels_lem i (put update i (some y)) (ground arith) in
        (
          update',
          rw (walk_level i (ground arith)) r,
          ((λ j b. ground (arith, f j, g j)), λ j b. ground (arith, g j)),
        )
