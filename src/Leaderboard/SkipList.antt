-- ===== src/Leaderboard/SkipList.antt =====
-- internal/leaderboard/admin.go: `SkipListRankCache`. The mutex is left out. The loops that follow
-- links run on fuel, one more than the number of nodes; the coins of `randomLevel` are a list.
use ultimate_game_server.Prelude.{
  ℕ, zero, suc, ◌+◌, ◌-◌, String, Bool, not, ◌&&◌, ◌||◌, Option, none, some, List, [], ◌∷◌, ltb,
  leb, ◌==◌, if◌then◌else◌, ◌>>=◌, pos_part, ltb_ℤ, ℤ, pos, string_key,
}
use ultimate_game_server.Dict.{Dict, lookup, insert, delete}
use ultimate_game_server.Leaderboard.Entry.{less, RankEntry}
use ultimate_game_server.Leaderboard.Nodes.{put, load_entry, load_next, set_next, new_node, Heap}

-- `skiplistMaxLevel`
abbrev pub max_level : ℕ
max_level = 16

pub record SkipList : Type 0 where
  pub sort_asc : Bool
  pub enabled : Bool
  pub level : ℕ
  pub head : ℕ
  pub size : ℕ
  pub owner_idx : Dict String ℕ
  pub heap : Heap

-- The head node carries the zero entry.
unfoldable pub new_skip_list : Bool → Bool → SkipList
unfolding new_node
new_skip_list asc on = record {
  sort_asc = asc;
  enabled = on;
  level = 1;
  head = 0;
  size = 0;
  owner_idx = [];
  heap =
      new_node (record { fresh = 0; cell = λ _. none })
        (record { owner_id = ""; score = pos 0; subscore = pos 0 }) max_level;
}

-- A coin that shows true raises the level.
unfoldable pub random_level : List Bool → ℕ → ℕ
random_level [] lvl = lvl
random_level (c ∷ cs) lvl =
    let more = random_level cs (lvl + 1) in if ltb lvl max_level && c then more else lvl

-- `for x.next[i] != nil && s.less(x.next[i].entry, entry) { x = x.next[i] }`
unfoldable pub walk : Bool → Heap → RankEntry → ℕ → ℕ → ℕ → Option ℕ
walk asc h e i zero x = none
walk asc h e i (suc k) x = do
  q ← load_next h x i
  elim q [
    | none ↦ some x
    | some p ↦ do
      e' ← load_entry h p
      let rest = walk asc h e i k p in if less asc e' e then rest else some x
  ]

-- The loop over the levels downwards, from level `i` exclusive.
unfoldable pub search_levels :
    Bool → Heap → RankEntry → ℕ → ℕ → ℕ → (ℕ → Option ℕ) → Option (ℕ → Option ℕ)
search_levels asc h e k zero x update = some update
search_levels asc h e k (suc i) x update = do
  y ← walk asc h e i k x
  search_levels asc h e k i y (put update i (some y))

unfoldable pub find_update : SkipList → RankEntry → Option (ℕ → Option ℕ)
find_update s e = search_levels s.sort_asc s.heap e (suc s.size) s.level s.head (λ _. none)

-- `for i := s.level; i < lvl; i++ { update[i] = s.head }`
unfoldable pub raise : SkipList → ℕ → (ℕ → Option ℕ) → ℕ → Option ℕ
raise s lvl update i = if leb s.level i && ltb i lvl then some s.head else update i

-- The loop that links the node in: `m` rounds from level `i`.
unfoldable pub link : (ℕ → Option ℕ) → ℕ → ℕ → ℕ → Heap → Option Heap
link update node i zero h = some h
link update node i (suc m) h = do
  p ← update i
  q ← load_next h p i
  h1 ← set_next h node i q
  h2 ← set_next h1 p i (some node)
  link update node (suc i) m h2

-- The loop that unlinks the node: `m` rounds from level `i`.
unfoldable pub unlink : (ℕ → Option ℕ) → ℕ → ℕ → ℕ → Heap → Option Heap
unlink update node i zero h = some h
unlink update node i (suc m) h = do
  p ← update i
  q ← load_next h p i
  r ← load_next h node i
  h1 ← elim q [ none ↦ some h | some p' ↦ if p' == node then set_next h p i r else some h ]
  unlink update node (suc i) m h1

unfoldable pub delete_locked : String → SkipList → Option SkipList
delete_locked owner s = elim (lookup owner s.owner_idx) [
  | none ↦ some s
  | some node ↦ do
    n ← s.heap.cell node
    update ← find_update s n.entry
    h ← unlink update node 0 n.height s.heap
    some (record s { owner_idx = delete owner s.owner_idx; size = s.size - 1; heap = h })
]

-- `for x != nil && x != node { rank++; x = x.next[0] }`
unfoldable pub count_to : Heap → ℕ → ℕ → Option ℕ → ℕ → Option ℕ
count_to h node zero x rank = none
count_to h node (suc k) none rank = some rank
count_to h node (suc k) (some p) rank =
    if p == node then some rank else do q ← load_next h p 0; count_to h node k q (rank + 1)

unfoldable pub rank_of_locked : String → SkipList → Option ℕ
rank_of_locked owner s = elim (lookup owner s.owner_idx) [
  | none ↦ some 0
  | some node ↦ do x ← load_next s.heap s.head 0; count_to s.heap node (suc s.size) x 1
]

-- `if old, ok := s.ownerIdx[entry.OwnerID]; ok { s.deleteLocked(old.entry.OwnerID) }`
unfoldable pub delete_old : String → SkipList → Option SkipList
delete_old owner s = elim (lookup owner s.owner_idx) [
  | none ↦ some s
  | some old ↦ do e ← load_entry s.heap old; delete_locked e.owner_id s
]

-- What `Insert` does after the old entry is gone, with the level that the coins gave.
unfoldable pub add_entry : RankEntry → ℕ → SkipList → Option SkipList
add_entry e lvl s = do
  update ← find_update s e
  h ← link (raise s lvl update) s.heap.fresh 0 lvl (new_node s.heap e lvl)
  some (record s {
    level = if ltb s.level lvl then lvl else s.level;
    heap = h;
    owner_idx = insert e.owner_id s.heap.fresh s.owner_idx;
    size = s.size + 1;
  })

-- `Insert`: the list and the rank.
unfoldable pub insert_entry : RankEntry → List Bool → SkipList → Option (SkipList × ℕ)
insert_entry e coins s = if not s.enabled then some (s, 0) else do
  s1 ← delete_old e.owner_id s
  s2 ← add_entry e (random_level coins 1) s1
  rank ← rank_of_locked e.owner_id s2
  some (s2, rank)

unfoldable pub get_rank : String → SkipList → Option ℕ
get_rank owner s = if not s.enabled then some 0 else rank_of_locked owner s

-- `for i := int64(1); i < rank && x != nil; i++ { x = x.next[0] }`, `k` rounds at most.
unfoldable pub advance : Heap → ℕ → Option ℕ → Option (Option ℕ)
advance h zero x = some x
advance h (suc k) none = some none
advance h (suc k) (some p) = do q ← load_next h p 0; advance h k q

-- `GetDataByRank`; the inner `none` is `RankEntry{}, false`.
unfoldable pub get_data_by_rank : ℤ → SkipList → Option (Option RankEntry)
get_data_by_rank rank s =
    if not s.enabled || ltb_ℤ rank (pos 1) || ltb_ℤ (pos s.size) rank then some none else do
      x ← load_next s.heap s.head 0
      y ← advance s.heap (pos_part rank - 1) x
      elim y [ none ↦ some none | some p ↦ do e ← load_entry s.heap p; some (some e) ]
