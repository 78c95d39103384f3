-- ===== src/Leaderboard/AddingOk.antt =====
-- `Insert` of internal/leaderboard/admin.go returns, and the list stays well formed.
use ultimate_game_server.Prelude.{
  ℕ, suc, ◌+◌, ◌≤◌, ◌<◌, ◌≡◌, refl, sym, ap, ◌∙◌, ◌≢◌, inl, inr, Option, some, List, ◌∷◌, ◌++◌,
  arith, ltb, leb, if◌then◌else◌, ltb→lt, lt→ltb, Bool-cases, All, All-map, All-and, string_key,
}
use ultimate_game_server.Dict.{insert, lookup-insert}
use ultimate_game_server.Leaderboard.Entry.{RankEntry}
use ultimate_game_server.Leaderboard.Nodes.{load_next, new_node, shape, Heap}
use ultimate_game_server.Leaderboard.SkipList.{max_level, raise, link, add_entry, SkipList}
use ultimate_game_server.Leaderboard.Ranking.{lower, upper, lower-upper}
use ultimate_game_server.Leaderboard.Towers.{
  tall, tall_yes, tall_no, tall-append, All-tall, tall-none, last, Chain, Chain-frame, Away, Apart,
  Apart-tall, Tower,
}
use ultimate_game_server.Leaderboard.Walks.{Holds, links}
use ultimate_game_server.Leaderboard.SkipListOk.{
  tower_entry, Levels, find_update_lem, IsLinked, IsSkip,
}
use ultimate_game_server.Leaderboard.Linking.{SameShape, link_lem}
use ultimate_game_server.Leaderboard.Adding.{
  OtherOwner, with_tower, new_node_lem, new_node_fresh, not_fresh, with_Ordered, with_address,
  with_Apart, All-split, All-with, length-with,
}
use mathlib.Core.Path.{subst}

abbrev pub new_tower : SkipList → RankEntry → ℕ → Tower
new_tower s e lvl = record { at = s.heap.fresh; levels = lvl; entry = e }

module _ (s : SkipList) (ts : List Tower) (e : RankEntry) (lvl : ℕ) (ok : IsSkip s ts)
    (fits : (1 ≤ lvl) × (lvl ≤ max_level)) (other : All (OtherOwner e) ts) where
  h0 : Heap
  h0 = new_node s.heap e lvl

  abbrev n : Tower
  n = new_tower s e lvl

  abbrev xs : List Tower
  xs = lower tower_entry s.sort_asc e ts

  abbrev ys : List Tower
  ys = upper tower_entry s.sort_asc e ts

  tall_split : (i : ℕ) → tall i ts ≡ tall i xs ++ tall i ys
  tall_split i = ap (tall i) (sym (lower-upper tower_entry s.sort_asc e ts)) ∙ tall-append i xs ys

  not_here : All (λ t. t.at ≢ s.heap.fresh) ts
  not_here =
      All-map (Holds s.heap) (λ t. t.at ≢ s.heap.fresh)
        (λ t p.
          not_fresh s.heap t.at s.heap.fresh (t.entry, t.levels) p
            (ok.linked.unused s.heap.fresh (ground arith)))
        ts ok.linked.nodes

  head_not_here : s.head ≢ s.heap.fresh
  head_not_here =
      let (e0, p) = ok.linked.head_node in
      not_fresh s.heap s.head s.heap.fresh (e0, max_level) p
        (ok.linked.unused s.heap.fresh (ground arith))

  still : All (Holds h0) ts
  unfolding h0
  still =
      let (_, f, _) = new_node_lem s.heap e lvl in
      All-and (Holds s.heap) (λ t. t.at ≢ s.heap.fresh) (Holds h0) (λ t p q. f t.at q ∙ p) ts
        ok.linked.nodes not_here

  start-Chain : (i : ℕ) → i < max_level → Chain (links h0 i) s.head (tall i xs ++ tall i ys)
  unfolding h0
  start-Chain i l =
      let (_, _, g) = new_node_lem s.heap e lvl in
      subst (Chain (links h0 i) s.head) (tall_split i) (
        Chain-frame (links s.heap i) (links h0 i) s.head s.head (tall i ts)
          (g s.head i head_not_here)
          (All-tall (λ t. load_next h0 t.at i ≡ load_next s.heap t.at i) i ts
            (All-map (λ t. t.at ≢ s.heap.fresh) (λ t. load_next h0 t.at i ≡ load_next s.heap t.at i)
              (λ t q. g t.at i q) ts not_here))
          (ok.linked.chains i l))

  head_still : (e0 : RankEntry) × (shape h0 s.head ≡ some (e0, max_level))
  unfolding h0
  head_still =
      let (e0, p) = ok.linked.head_node in
      (e0, (new_node_lem s.heap e lvl).1 s.head head_not_here ∙ p)

  raised :
      (update : ℕ → Option ℕ)
      → ((j : ℕ) → j < s.level → update j ≡ some (last s.head (tall j xs)))
      → (j : ℕ) → j < lvl
      → raise s lvl update j ≡ some (last s.head (tall j xs))
  unfolding raise
  raised update f j l = elim (Bool-cases (leb s.level j)) [
    | inl p ↦
        let low : All (λ t. t.levels ≤ j) xs =
          All-map (Levels s.level) (λ t. t.levels ≤ j) (λ t q. ground arith) xs
            (All-split (Levels s.level) s.sort_asc e ts ok.levels).0 in
        rw (p, lt→ltb j lvl l, tall-none j xs low) refl
    | inr p ↦ rw p (f j (ground arith))
  ]

  linked_in :
      (update : ℕ → Option ℕ)
      → ((j : ℕ) → j < s.level → update j ≡ some (last s.head (tall j xs)))
      → (h' : Heap) × (link (raise s lvl update) s.heap.fresh 0 lvl h0 ≡ some h')
        × (SameShape h0 h'
            × ((j : ℕ) → j < lvl → Chain (links h' j) s.head (tall j xs ++ n ∷ tall j ys))
            × ((j : ℕ)
                → lvl ≤ j
                → j < max_level
                → Chain (links h' j) s.head (tall j xs ++ tall j ys)))
  unfolding h0
  linked_in update f =
      let (e0, p) = head_still in
      link_lem h0 s.head n xs ys (raise s lvl update) e0 p
        (All-split (Holds h0) s.sort_asc e ts still).0 (new_node_lem s.heap e lvl).0
        (λ i. subst Apart (tall_split i) (Apart-tall i ts ok.linked.apart))
        (λ i.
          subst (Away s.head) (tall_split i)
            (All-tall (λ t. t.at ≢ s.head) i ts ok.linked.off_head))
        (λ i.
          subst (Away s.heap.fresh) (tall_split i)
            (All-tall (λ t. t.at ≢ s.heap.fresh) i ts not_here))
        head_not_here (raised update f) fits.1 0 lvl h0 (omega arith)
        (((λ y. refl), refl), (λ j l. ground arith), λ j _ l. start-Chain j l)

  -- The list that the theorem below is about.
  added : Heap → SkipList
  added h' = record s {
    level = if ltb s.level lvl then lvl else s.level;
    heap = h';
    owner_idx = insert e.owner_id s.heap.fresh s.owner_idx;
    size = s.size + 1;
  }

  added_IsLinked :
      (h' : Heap)
      → SameShape h0 h'
      → ((j : ℕ) → j < lvl → Chain (links h' j) s.head (tall j xs ++ n ∷ tall j ys))
      → ((j : ℕ) → lvl ≤ j → j < max_level → Chain (links h' j) s.head (tall j xs ++ tall j ys))
      → IsLinked h' s.head s.sort_asc (with_tower s.sort_asc n ts)
  unfolding h0
  added_IsLinked h' (sh, fr) done todo =
      let (here, there, _) = new_node_lem s.heap e lvl in
      let (e0, p) = head_still in
      record {
        head_node = (e0, sh s.head ∙ p);
        nodes =
            All-with (Holds h') s.sort_asc n ts
              (All-map (Holds h0) (Holds h') (λ t q. sh t.at ∙ q) ts still)
              (sh s.heap.fresh ∙ here);
        chains = λ i l. elim (Bool-cases (ltb i lvl)) [
          | inl q ↦ rw (tall-append, tall_yes i n ys q) (done i (ltb→lt i lvl q))
          | inr q ↦ rw (tall-append, tall_no i n ys q) (todo i (ground arith) l)
        ];
        apart =
            with_Apart n xs ys
              (subst Apart (sym (lower-upper tower_entry s.sort_asc e ts)) ok.linked.apart)
              (subst (Away s.heap.fresh) (sym (lower-upper tower_entry s.sort_asc e ts)) not_here);
        off_head =
            All-with (λ t. t.at ≢ s.head) s.sort_asc n ts ok.linked.off_head
              (λ q. head_not_here (sym q));
        unused = λ x l.
            let l' : suc s.heap.fresh ≤ x =
              subst (λ k. k ≤ x) (fr ∙ new_node_fresh s.heap e lvl) l in
            sh x ∙ there x (ground arith) ∙ ok.linked.unused x (ground arith);
        ordered = with_Ordered s.sort_asc n ts ok.linked.ordered other;
      }

  added-IsSkip :
      (h' : Heap)
      → IsLinked h' s.head s.sort_asc (with_tower s.sort_asc n ts)
      → IsSkip (added h') (with_tower s.sort_asc n ts)
  unfolding added
  added-IsSkip h' k = record {
    linked = k;
    levels =
        let up = if ltb s.level lvl then lvl else s.level in
        All-with (Levels up) s.sort_asc n ts
          (All-map (Levels s.level) (Levels up) (λ t q. ground arith) ts ok.levels) (ground arith);
    level_ok = ground (arith, ok.level_ok, fits.1);
    owners = λ o. ground (
      arith,
      ok.owners o,
      with_address s.sort_asc n ts o other,
      lookup-insert o e.owner_id s.heap.fresh s.owner_idx,
    );
    size_ok = omega (arith, ok.size_ok, length-with s.sort_asc n ts);
  }

  pub add_entry-IsSkip :
      (s' : SkipList) × (add_entry e lvl s ≡ some s')
      × (s'.sort_asc ≡ s.sort_asc)
      × (s'.enabled ≡ s.enabled)
      × IsSkip s' (with_tower s.sort_asc n ts)
  unfolding add_entry h0 added
  add_entry-IsSkip =
      let (update, r, f) = find_update_lem s ts e ok in
      let (h', r', (sh, done, todo)) = linked_in update f in
      (added h', rw (r, r') refl, refl, refl, added-IsSkip h' (added_IsLinked h' sh done todo))
