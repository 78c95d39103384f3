-- ===== src/Leaderboard/Unlinking.antt =====
-- The loop of `deleteLocked` in internal/leaderboard/admin.go that takes a node out of its levels.
use ultimate_game_server.Prelude.{
  ℕ, zero, suc, ◌+◌, ◌≤◌, ◌<◌, ◌≡◌, refl, sym, ◌∙◌, ◌≢◌, Option, some, List, ◌∷◌, ◌++◌, arith,
  lt→ltb, ==_refl, All, string_key,
}
use ultimate_game_server.Leaderboard.Entry.{RankEntry}
use ultimate_game_server.Leaderboard.Nodes.{load_next, set_next, shape, set_next-Wrote, Heap}
use ultimate_game_server.Leaderboard.SkipList.{max_level, unlink}
use ultimate_game_server.Leaderboard.Towers.{
  tall, tall_yes, last, first, Chain, Chain-first, Chain-last, Away, Apart, Chain-without, Tower,
}
use ultimate_game_server.Leaderboard.Walks.{Holds, links}
use ultimate_game_server.Leaderboard.Linking.{Chain-level, last-shape, SameShape}
use mathlib.Core.Path.{subst}
use native.Mathlib.Decide.{ℕ_discrete}

module _ (h0 : Heap) (head : ℕ) (n : Tower) (xs ys : List Tower) (update : ℕ → Option ℕ)
    (e0 : RankEntry) (head_node : shape h0 head ≡ some (e0, max_level)) (nodes : All (Holds h0) xs)
    (apart : (i : ℕ) → Apart (tall i xs ++ tall i (n ∷ ys)))
    (off_head : (i : ℕ) → Away head (tall i xs ++ tall i (n ∷ ys)))
    (filled : (j : ℕ) → j < n.levels → update j ≡ some (last head (tall j xs)))
    (low : n.levels ≤ max_level) where
  -- The levels below `i` lead past the node, the others are as they were.
  abbrev pub UnlinkedTo : ℕ → Heap → Type 0
  UnlinkedTo i h =
      SameShape h0 h
      × ((j : ℕ) → j < i → Chain (links h j) head (tall j xs ++ tall j ys))
      × ((j : ℕ) → i ≤ j → j < max_level → Chain (links h j) head (tall j xs ++ tall j (n ∷ ys)))

  unlink_level :
      (i : ℕ) (h : Heap)
      → i < n.levels
      → UnlinkedTo i h
      → (h1 : Heap) × (load_next h (last head (tall i xs)) i ≡ some (some n.at))
        × (load_next h n.at i ≡ some (first (tall i ys)))
        × (set_next h (last head (tall i xs)) i (first (tall i ys)) ≡ some h1)
        × UnlinkedTo (suc i) h1
  unlink_level i h l (s, d, t) =
      let p = last head (tall i xs) in
      let at_i = tall_yes i n ys (lt→ltb i n.levels l) in
      let c : Chain (links h i) head (tall i xs ++ n ∷ tall i ys) =
        subst (λ w. Chain (links h i) head (tall i xs ++ w)) at_i
          (t i (ground arith) (ground arith)) in
      let from = Chain-last (links h i) head (tall i xs) (n ∷ tall i ys) c in
      let read = Chain-first (links h i) n.at (tall i ys) from.1 in
      let (ep, kp, sp, lp) = last-shape h0 i head e0 max_level xs head_node (ground arith) nodes in
      let (h1, r, w) = set_next-Wrote h p ep kp (s.0 p ∙ sp) i (first (tall i ys)) lp in
      let away : (j y : ℕ) → j ≢ i → load_next h1 y j ≡ load_next h y j =
        λ j y q. w.elsewhere y j (λ _. q) in
      let here : Chain (links h1 i) head (tall i xs ++ tall i ys) =
        Chain-without (links h i) (links h1 i) n head (tall i xs) (tall i ys) c
          (subst (λ w. Away head (tall i xs ++ w)) at_i (off_head i))
          (subst (λ w. Apart (tall i xs ++ w)) at_i (apart i))
          (λ y a. w.elsewhere y i (λ q. elim (a q) [ ])) (w.here ∙ sym read) in
      (
        h1,
        from.0,
        read,
        r,
        (
          (λ y. w.shapes y ∙ s.0 y, w.same_fresh ∙ s.1),
          (λ j b. elim (ℕ_discrete j i) [
            | yes q ↦ subst (λ k. Chain (links h1 k) head (tall k xs ++ tall k ys)) (sym q) here
            | no q ↦
                Chain-level h h1 j head (tall j xs ++ tall j ys) (λ y. away j y q)
                  (d j (ground arith))
          ]),
          λ j b b'.
              Chain-level h h1 j head (tall j xs ++ tall j (n ∷ ys)) (λ y. away j y (ground arith))
                (t j (ground arith) b'),
        ),
      )

  pub unlink_lem :
      (i m : ℕ) (h : Heap)
      → i + m ≡ n.levels
      → UnlinkedTo i h
      → (h' : Heap) × (unlink update n.at i m h ≡ some h') × UnlinkedTo n.levels h'
  unfolding unlink
  unlink_lem i zero h e k = (h, refl, subst (λ j. UnlinkedTo j h) (ground arith) k)
  unlink_lem i (suc m) h e k =
      let (h1, read, read', r, k') = unlink_level i h (ground arith) k in
      let (h', r', done) = unlink_lem (suc i) m h1 (ground arith) k' in
      (h', rw (filled i (ground arith), read, read', ==_refl n.at, r) r', done)
