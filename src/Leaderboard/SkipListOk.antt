-- ===== src/Leaderboard/SkipListOk.antt =====
-- internal/leaderboard/admin.go: what holds of a skip list between the operations.
use ultimate_game_server.Prelude.{
  ℕ, suc, ◌≤◌, ◌<◌, String, ◌≡◌, refl, sym, ap, ◌∙◌, Bool, Option, none, some, List, [], ◌∷◌, map,
  arith, if◌then◌else◌, length, All, length-append, All-map, All-of_append, same, string_key,
}
use ultimate_game_server.Dict.{lookup}
use ultimate_game_server.Leaderboard.Entry.{RankEntry}
use ultimate_game_server.Leaderboard.Nodes.{load_next, new_node, shape, Heap}
use ultimate_game_server.Leaderboard.SkipList.{
  max_level, new_skip_list, search_levels, find_update, SkipList,
}
use ultimate_game_server.Leaderboard.Ranking.{
  lower, upper, Ordered, lower-upper, All-lower, All-upper,
}
use ultimate_game_server.Leaderboard.Towers.{
  tall, tall-append, tall-none, last, Chain, Away, Apart, Tower,
}
use ultimate_game_server.Leaderboard.Walks.{Holds, links}
use ultimate_game_server.Leaderboard.Found.{search_levels_lem}
use mathlib.Core.Path.{subst}

-- `ownerIdx` as the nodes give it.
unfoldable pub address_of : String → List Tower → Option ℕ
address_of o [] = none
address_of o (t ∷ ts) = if same o t.entry.owner_id then some t.at else address_of o ts

abbrev pub tower_entry : Tower → RankEntry
tower_entry t = t.entry

abbrev pub entries : List Tower → List RankEntry
entries ts = map tower_entry ts

abbrev pub Levels : ℕ → Tower → Type 0
Levels k t = (1 ≤ t.levels) × (t.levels ≤ k)

-- Of the nodes in memory alone.
pub record IsLinked (h : Heap) (head : ℕ) (asc : Bool) (ts : List Tower) : Type 0 where
  pub head_node : (e : RankEntry) × (shape h head ≡ some (e, max_level))
  pub nodes : All (Holds h) ts
  pub chains : (i : ℕ) → i < max_level → Chain (links h i) head (tall i ts)
  pub apart : Apart ts
  pub off_head : Away head ts
  pub unused : (x : ℕ) → h.fresh ≤ x → shape h x ≡ none
  pub ordered : Ordered tower_entry asc ts

pub record IsSkip (s : SkipList) (ts : List Tower) : Type 0 where
  pub linked : IsLinked s.heap s.head s.sort_asc ts
  pub levels : All (Levels s.level) ts
  pub level_ok : s.level ≤ max_level
  pub owners : (o : String) → lookup o s.owner_idx ≡ address_of o ts
  pub size_ok : s.size ≡ length ts

pub new_skip_list-IsSkip : (asc on : Bool) → IsSkip (new_skip_list asc on) []
unfolding new_skip_list new_node shape load_next tall lookup address_of
new_skip_list-IsSkip asc on = record {
  linked = record {
    head_node = (_, refl);
    nodes = tt;
    chains = λ i l. ground arith;
    apart = tt;
    off_head = tt;
    unused = λ x l. ground arith;
    ordered = tt;
  };
  levels = tt;
  level_ok = ground arith;
  owners = λ o. refl;
  size_ok = refl;
}

-- The search for the place of `e`.
pub find_update_lem :
    (s : SkipList) (ts : List Tower) (e : RankEntry)
    → IsSkip s ts
    → (update : ℕ → Option ℕ) × (find_update s e ≡ some update)
      × ((j : ℕ)
          → j < s.level
          → update j ≡ some (last s.head (tall j (lower tower_entry s.sort_asc e ts))))
unfolding find_update
find_update_lem s ts e ok =
    let xs = lower tower_entry s.sort_asc e ts in
    let ys = upper tower_entry s.sort_asc e ts in
    let split = lower-upper tower_entry s.sort_asc e ts in
    let (hx, hy) =
      All-of_append (Holds s.heap) xs ys (subst (All (Holds s.heap)) (sym split) ok.linked.nodes) in
    let (lx, ly) =
      All-of_append (Levels s.level) xs ys (subst (All (Levels s.level)) (sym split) ok.levels) in
    let start : s.head ≡ last s.head (tall s.level xs) = rw (
      tall-none s.level xs
        (All-map (Levels s.level) (λ t. t.levels ≤ s.level) (λ t p. p.1) xs lx)) in
    let (update, r, (f, _)) =
      search_levels_lem s.sort_asc s.heap e s.head xs ys (suc s.size)
        (λ i l.
          subst (Chain (links s.heap i) s.head) (ap (tall i) (sym split) ∙ tall-append i xs ys)
            (ok.linked.chains i l))
        hx hy (All-lower tower_entry s.sort_asc e ts)
        (All-upper tower_entry s.sort_asc e ts ok.linked.ordered)
        (omega (arith, ap length split, length-append xs ys, ok.size_ok)) s.level (λ _. none)
        ok.level_ok in
    (
      update,
      ap (λ x. search_levels s.sort_asc s.heap e (suc s.size) s.level x (λ _. none)) start ∙ r,
      f,
    )
