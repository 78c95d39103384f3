-- ===== src/Leaderboard/Linking.antt =====
-- The loop of `Insert` in internal/leaderboard/admin.go that links a node into its levels.
use ultimate_game_server.Prelude.{
  ℕ, zero, suc, ◌+◌, ◌≤◌, ◌<◌, ◌≡◌, refl, sym, ◌∙◌, ◌≢◌, inl, inr, Option, some, List, [], ◌∷◌,
  ◌++◌, arith, ltb, ltb→lt, Bool-cases, All, All-always, All-of_append, same, string_key,
}
use ultimate_game_server.Leaderboard.Entry.{RankEntry}
use ultimate_game_server.Leaderboard.Nodes.{load_next, set_next, shape, set_next-Wrote, Heap}
use ultimate_game_server.Leaderboard.SkipList.{max_level, link}
use ultimate_game_server.Leaderboard.Towers.{
  tall, tall_nil, tall_yes, tall_no, last, first, Chain, Chain-first, Chain-last, Chain-frame, Away,
  Apart, last-Away, Chain-with, Tower,
}
use ultimate_game_server.Leaderboard.Walks.{Holds, links}
use mathlib.Core.Path.{subst}
use native.Mathlib.Decide.{ℕ_discrete}

-- Two heaps whose links agree on a level have the same chains on it.
pub Chain-level :
    (h h' : Heap) (j x : ℕ) (ts : List Tower)
    → ((y : ℕ) → load_next h' y j ≡ load_next h y j)
    → Chain (links h j) x ts
    → Chain (links h' j) x ts
Chain-level h h' j x ts same c =
    Chain-frame (links h j) (links h' j) x x ts (same x)
      (All-always (λ t. load_next h' t.at j ≡ load_next h t.at j) (λ t. same t.at) ts) c

-- The last node of a level, or the head, has a link on that level.
pub last-shape :
    (h : Heap) (i x : ℕ) (e : RankEntry) (k : ℕ) (ts : List Tower)
    → shape h x ≡ some (e, k)
    → i < k
    → All (Holds h) ts
    → (e' : RankEntry) × (k' : ℕ) × (shape h (last x (tall i ts)) ≡ some (e', k')) × (i < k')
last-shape h i x e k [] s l a = rw tall_nil (e, k, s, l)
last-shape h i x e k (t ∷ ts) s l a = elim (Bool-cases (ltb i t.levels)) [
  | inl p ↦
      rw (tall_yes i t ts p) (last-shape h i t.at t.entry t.levels ts a.0 (ltb→lt i t.levels p) a.1)
  | inr p ↦ rw (tall_no i t ts p) (last-shape h i x e k ts s l a.1)
]

abbrev pub SameShape : Heap → Heap → Type 0
SameShape h h' = ((y : ℕ) → shape h' y ≡ shape h y) × (h'.fresh ≡ h.fresh)

module _ (h0 : Heap) (head : ℕ) (n : Tower) (xs ys : List Tower) (update : ℕ → Option ℕ)
    (e0 : RankEntry) (head_node : shape h0 head ≡ some (e0, max_level)) (nodes : All (Holds h0) xs)
    (this : Holds h0 n) (apart : (i : ℕ) → Apart (tall i xs ++ tall i ys))
    (off_head : (i : ℕ) → Away head (tall i xs ++ tall i ys))
    (off_node : (i : ℕ) → Away n.at (tall i xs ++ tall i ys)) (ne : head ≢ n.at)
    (filled : (j : ℕ) → j < n.levels → update j ≡ some (last head (tall j xs)))
    (low : n.levels ≤ max_level) where
  -- The levels below `i` lead through the node, the others do not.
  abbrev pub LinkedTo : ℕ → Heap → Type 0
  LinkedTo i h =
      SameShape h0 h
      × ((j : ℕ) → j < i → Chain (links h j) head (tall j xs ++ n ∷ tall j ys))
      × ((j : ℕ) → i ≤ j → j < max_level → Chain (links h j) head (tall j xs ++ tall j ys))

  link_level :
      (i : ℕ) (h : Heap)
      → i < n.levels
      → LinkedTo i h
      → (h1 h2 : Heap) × (load_next h (last head (tall i xs)) i ≡ some (first (tall i ys)))
        × (set_next h n.at i (first (tall i ys)) ≡ some h1)
        × (set_next h1 (last head (tall i xs)) i (some n.at) ≡ some h2)
        × LinkedTo (suc i) h2
  link_level i h l (s, d, t) =
      let p = last head (tall i xs) in
      let c = t i (ground arith) (ground arith) in
      let read =
        Chain-first (links h i) p (tall i ys)
          (Chain-last (links h i) head (tall i xs) (tall i ys) c) in
      let (h1, r1, w1) =
        set_next-Wrote h n.at n.entry n.levels (s.0 n.at ∙ this) i (first (tall i ys)) l in
      let (ep, kp, sp, lp) = last-shape h0 i head e0 max_level xs head_node (ground arith) nodes in
      let (h2, r2, w2) = set_next-Wrote h1 p ep kp (w1.shapes p ∙ s.0 p ∙ sp) i (some n.at) lp in
      let (offx, _) = All-of_append (λ u. u.at ≢ n.at) (tall i xs) (tall i ys) (off_node i) in
      let p_ne : p ≢ n.at = last-Away n.at head (tall i xs) ne offx in
      let away : (j y : ℕ) → j ≢ i → load_next h2 y j ≡ load_next h y j =
        λ j y q. w2.elsewhere y j (λ _. q) ∙ w1.elsewhere y j (λ _. q) in
      let here : Chain (links h2 i) head (tall i xs ++ n ∷ tall i ys) =
        Chain-with (links h i) (links h2 i) n head (tall i xs) (tall i ys) c (off_head i) (apart i)
          (off_node i) ne
          (λ y a b. w2.elsewhere y i (λ q. elim (a q) [ ]) ∙ w1.elsewhere y i (λ q. elim (b q) [ ]))
          w2.here (w2.elsewhere n.at i (λ q. elim (p_ne (sym q)) [ ]) ∙ w1.here ∙ sym read) in
      (
        h1,
        h2,
        read,
        r1,
        r2,
        (
          (λ y. w2.shapes y ∙ w1.shapes y ∙ s.0 y, w2.same_fresh ∙ w1.same_fresh ∙ s.1),
          (λ j b. elim (ℕ_discrete j i) [
            | yes q ↦ subst (λ k. Chain (links h2 k) head (tall k xs ++ n ∷ tall k ys)) (sym q) here
            | no q ↦
                Chain-level h h2 j head (tall j xs ++ n ∷ tall j ys) (λ y. away j y q)
                  (d j (ground arith))
          ]),
          λ j b b'.
              Chain-level h h2 j head (tall j xs ++ tall j ys) (λ y. away j y (ground arith))
                (t j (ground arith) b'),
        ),
      )

  pub link_lem :
      (i m : ℕ) (h : Heap)
      → i + m ≡ n.levels
      → LinkedTo i h
      → (h' : Heap) × (link update n.at i m h ≡ some h') × LinkedTo n.levels h'
  unfolding link
  link_lem i zero h e k = (h, refl, subst (λ j. LinkedTo j h) (ground arith) k)
  link_lem i (suc m) h e k =
      let (h1, h2, read, r1, r2, k') = link_level i h (ground arith) k in
      let (h', r, done) = link_lem (suc i) m h2 (ground arith) k' in
      (h', rw (filled i (ground arith), read, r1, r2) r, done)
