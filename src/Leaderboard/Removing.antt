-- ===== src/Leaderboard/Removing.antt =====
-- `deleteLocked` of internal/leaderboard/admin.go returns, takes out the entry of the owner, if
-- there is one, and leaves the list well formed.
use ultimate_game_server.Prelude.{
  ℕ, ◌-◌, ◌≤◌, ◌<◌, String, ◌≡◌, refl, sym, ap, ◌∙◌, ◌≢◌, inl, inr, Bool, Option, none, some, List,
  [], ◌∷◌, ◌++◌, arith, ltb, if◌then◌else◌, ltb→lt, Bool-cases, Option-cases, if_ind, length, All,
  length-append, All-map, All-of_append, string_key, same,
}
use ultimate_game_server.Dict.{lookup, delete, lookup-delete}
use ultimate_game_server.Leaderboard.Entry.{RankEntry}
use ultimate_game_server.Leaderboard.Nodes.{load_entry, load_entry-shape, node_at, SkipNode, Heap}
use ultimate_game_server.Leaderboard.SkipList.{
  max_level, find_update, unlink, delete_locked, SkipList,
}
use ultimate_game_server.Leaderboard.Ranking.{
  lower, Ordered, lower-upper, without, All-without, without-Ordered, Located, Located-here,
  Located-behind,
}
use ultimate_game_server.Leaderboard.Towers.{
  tall, tall_no, tall-append, All-tall, last, Chain, Away, Apart, Apart-tall, Tower,
}
use ultimate_game_server.Leaderboard.Walks.{Holds, links}
use ultimate_game_server.Leaderboard.SkipListOk.{
  address_of, tower_entry, Levels, find_update_lem, IsLinked, IsSkip,
}
use ultimate_game_server.Leaderboard.Linking.{SameShape}
use ultimate_game_server.Leaderboard.Unlinking.{unlink_lem}
use mathlib.Core.Path.{subst}

located :
    (asc : Bool) (o : String) (a : ℕ) (ts : List Tower)
    → Ordered tower_entry asc ts
    → address_of o ts ≡ some a
    → (t : Tower) × (ys : List Tower) × (t.at ≡ a) × Located tower_entry asc o t ys ts
unfolding address_of
located asc o a [] d e = ground arith
located asc o a (u ∷ ts) d e = elim (string_key.dec o u.entry.owner_id) [
  | yes q ↦ (u, ts, ground arith, Located-here tower_entry asc o u ts d q)
  | no q ↦
      let (t, ys, b, l) = located asc o a ts d.1 (ground arith) in
      (t, ys, b, Located-behind tower_entry asc o u t ys ts d q l)
]

address_without :
    (asc : Bool) (o p : String) (ts : List Tower)
    → address_of p (without tower_entry asc o ts) ≡ (if same p o then none else address_of p ts)
unfolding address_of without
address_without asc o p [] = ground arith
address_without asc o p (t ∷ ts) = ground (arith, address_without asc o p ts)

without_nobody :
    (asc : Bool) (o : String) (ts : List Tower)
    → address_of o ts ≡ none
    → without tower_entry asc o ts ≡ ts
unfolding address_of without
without_nobody asc o [] e = refl
without_nobody asc o (t ∷ ts) e = ground (arith, without_nobody asc o ts)

without-Apart :
    (asc : Bool) (o : String) (ts : List Tower) → Apart ts → Apart (without tower_entry asc o ts)
unfolding without
without-Apart asc o [] a = tt
without-Apart asc o (t ∷ ts) a =
    if_ind Apart (same o t.entry.owner_id) (λ e. without-Apart asc o ts a.1)
      λ e. (All-without tower_entry asc (λ u. u.at ≢ t.at) o ts a.0, without-Apart asc o ts a.1)

delete_run :
    (s : SkipList) (o : String) (a : ℕ) (n : SkipNode) (update : ℕ → Option ℕ) (h : Heap)
    → lookup o s.owner_idx ≡ some a
    → s.heap.cell a ≡ some n
    → find_update s n.entry ≡ some update
    → unlink update a 0 n.height s.heap ≡ some h
    → delete_locked o s
      ≡ some (record s { owner_idx = delete o s.owner_idx; size = s.size - 1; heap = h })
unfolding delete_locked
delete_run s o a n update h l c f u = rw (l, delete_locked, c, f, u) refl

pub delete_nobody :
    (s : SkipList) (o : String) → lookup o s.owner_idx ≡ none → delete_locked o s ≡ some s
unfolding delete_locked
delete_nobody s o l = rw (l, delete_locked) refl

module _ (s : SkipList) (ts : List Tower) (o : String) (ok : IsSkip s ts) (t : Tower)
    (ys : List Tower) (at_place : Located tower_entry s.sort_asc o t ys ts) where
  abbrev rest : List Tower
  rest = without tower_entry s.sort_asc o ts

  abbrev xs : List Tower
  xs = lower tower_entry s.sort_asc t.entry ts

  halves : ts ≡ xs ++ t ∷ ys
  halves = sym (lower-upper tower_entry s.sort_asc t.entry ts) ∙ ap (λ w. xs ++ w) at_place.1

  tall_split : (i : ℕ) → tall i ts ≡ tall i xs ++ tall i (t ∷ ys)
  tall_split i = ap (tall i) halves ∙ tall-append i xs (t ∷ ys)

  pub of_tower {κ} : (P : Tower → Type κ) → All P ts → All P xs × P t
  of_tower P a = let (x, y) = All-of_append P xs (t ∷ ys) (subst (All P) halves a) in (x, y.0)

  unlinked_from :
      (update : ℕ → Option ℕ)
      → ((j : ℕ) → j < s.level → update j ≡ some (last s.head (tall j xs)))
      → (h' : Heap) × (unlink update t.at 0 t.levels s.heap ≡ some h')
        × (SameShape s.heap h'
            × ((j : ℕ) → j < t.levels → Chain (links h' j) s.head (tall j xs ++ tall j ys))
            × ((j : ℕ)
                → t.levels ≤ j
                → j < max_level
                → Chain (links h' j) s.head (tall j xs ++ tall j (t ∷ ys))))
  unlinked_from update f =
      let (e0, p) = ok.linked.head_node in
      let (low, high) = (of_tower (Levels s.level) ok.levels).1 in
      unlink_lem s.heap s.head t xs ys update e0 p (of_tower (Holds s.heap) ok.linked.nodes).0
        (λ i. subst Apart (tall_split i) (Apart-tall i ts ok.linked.apart))
        (λ i.
          subst (Away s.head) (tall_split i)
            (All-tall (λ u. u.at ≢ s.head) i ts ok.linked.off_head))
        (λ j l. f j (ground arith)) (ground (arith, ok.level_ok)) 0 t.levels s.heap (omega arith)
        (
          ((λ y. refl), refl),
          (λ j l. ground arith),
          λ j _ l. subst (Chain (links s.heap j) s.head) (tall_split j) (ok.linked.chains j l),
        )

  removed_IsLinked :
      (h' : Heap)
      → SameShape s.heap h'
      → ((j : ℕ) → j < t.levels → Chain (links h' j) s.head (tall j xs ++ tall j ys))
      → ((j : ℕ)
          → t.levels ≤ j
          → j < max_level
          → Chain (links h' j) s.head (tall j xs ++ tall j (t ∷ ys)))
      → IsLinked h' s.head s.sort_asc rest
  removed_IsLinked h' (sh, fr) done todo =
      let (e0, p) = ok.linked.head_node in
      record {
        head_node = (e0, sh s.head ∙ p);
        nodes =
            All-without tower_entry s.sort_asc (Holds h') o ts
              (All-map (Holds s.heap) (Holds h') (λ u q. sh u.at ∙ q) ts ok.linked.nodes);
        chains = λ i l. elim (Bool-cases (ltb i t.levels)) [
          | inl q ↦ rw (at_place.2, tall-append) (done i (ltb→lt i t.levels q))
          | inr q ↦
              rw (at_place.2, tall-append)
                (subst (λ w. Chain (links h' i) s.head (tall i xs ++ w)) (tall_no i t ys q)
                  (todo i (ground arith) l))
        ];
        apart = without-Apart s.sort_asc o ts ok.linked.apart;
        off_head = All-without tower_entry s.sort_asc (λ u. u.at ≢ s.head) o ts ok.linked.off_head;
        unused = λ x l. sh x ∙ ok.linked.unused x (subst (λ k. k ≤ x) fr l);
        ordered = without-Ordered tower_entry s.sort_asc o ts ok.linked.ordered;
      }

  removed : Heap → SkipList
  removed h' = record s { owner_idx = delete o s.owner_idx; size = s.size - 1; heap = h' }

  removed-IsSkip : (h' : Heap) → IsLinked h' s.head s.sort_asc rest → IsSkip (removed h') rest
  unfolding removed
  removed-IsSkip h' k = record {
    linked = k;
    levels = All-without tower_entry s.sort_asc (Levels s.level) o ts ok.levels;
    level_ok = ok.level_ok;
    owners = λ p.
        ground
          (arith, ok.owners p, address_without s.sort_asc o p ts, lookup-delete p o s.owner_idx);
    size_ok = omega (
      arith,
      ok.size_ok,
      ap length halves,
      length-append xs (t ∷ ys),
      ap length at_place.2,
      length-append xs ys,
    );
  }

  pub delete_at :
      lookup o s.owner_idx ≡ some t.at
      → (s' : SkipList) × (delete_locked o s ≡ some s')
        × (s'.sort_asc ≡ s.sort_asc)
        × (s'.enabled ≡ s.enabled)
        × IsSkip s' rest
  unfolding removed
  delete_at l =
      let (n, c, e, k) =
        node_at s.heap t.at t.entry t.levels (of_tower (Holds s.heap) ok.linked.nodes).1 in
      let (update, r, f) = find_update_lem s ts t.entry ok in
      let (h', r', (sh, done, todo)) = unlinked_from update f in
      (
        removed h',
        delete_run s o t.at n update h' l c (ap (find_update s) e ∙ r)
            (ap (λ m. unlink update t.at 0 m s.heap) k ∙ r'),
        refl,
        refl,
        removed-IsSkip h' (removed_IsLinked h' sh done todo),
      )

pub delete_locked_lem :
    (s : SkipList) (ts : List Tower) (o : String)
    → IsSkip s ts
    → (s' : SkipList) × (delete_locked o s ≡ some s')
      × (s'.sort_asc ≡ s.sort_asc)
      × (s'.enabled ≡ s.enabled)
      × IsSkip s' (without tower_entry s.sort_asc o ts)
delete_locked_lem s ts o ok = elim (Option-cases (address_of o ts)) [
  | inl q ↦
      (s, delete_nobody s o (ok.owners o ∙ q), refl, refl, rw (without_nobody s.sort_asc o ts q) ok)
  | inr (a, q) ↦
      let (t, ys, b, l) = located s.sort_asc o a ts ok.linked.ordered q in
      delete_at s ts o ok t ys l (ok.owners o ∙ q ∙ ap some (sym b))
]

-- The index leads to an entry of the owner.
pub entry_of :
    (s : SkipList) (ts : List Tower) (o : String)
    → IsSkip s ts
    → (a : ℕ) → address_of o ts ≡ some a
    → (e : RankEntry) × (load_entry s.heap a ≡ some e) × (e.owner_id ≡ o)
entry_of s ts o ok a q =
    let (t, ys, b, l) = located s.sort_asc o a ts ok.linked.ordered q in
    let (_, h) = of_tower s ts o ok t ys l (Holds s.heap) ok.linked.nodes in
    (
      t.entry,
      subst (λ x. load_entry s.heap x ≡ some t.entry) b
          (load_entry-shape s.heap t.at t.entry t.levels h),
      l.0,
    )
