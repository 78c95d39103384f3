-- ===== src/Leaderboard/Ranks.antt =====
-- The walks along the lowest level in internal/leaderboard/admin.go: ranks and entries at a rank.
use ultimate_game_server.Prelude.{
  ℕ, zero, suc, ◌+◌, ◌-◌, ◌≤◌, ◌<◌, String, ◌≡◌, refl, ◌≢◌, inl, inr, not, Option, none, some, List,
  [], ◌∷◌, arith, if◌then◌else◌, Option-cases, ◌>>=◌, length, All, All-map, string_key, ℤ, pos,
  negsuc,
}
use ultimate_game_server.Leaderboard.Nodes.{load_entry, load_next, load_entry-shape, Heap}
use ultimate_game_server.Leaderboard.SkipList.{
  count_to, rank_of_locked, advance, get_data_by_rank, SkipList,
}
use ultimate_game_server.Leaderboard.Towers.{
  tall-All, first, Chain, Chain-first, Away, Apart, Tower,
}
use ultimate_game_server.Leaderboard.Walks.{Holds, links}
use ultimate_game_server.Leaderboard.SkipListOk.{address_of, tower_entry, entries, Levels, IsSkip}
use ultimate_game_server.Leaderboard.Board.{rank_from, get_elem?, entry_at, get_elem?-entries}
use mathlib.Core.Option
use mathlib.Core.Path.{subst}

address_Away :
    (o : String) (a x : ℕ) (ts : List Tower) → address_of o ts ≡ some a → Away x ts → a ≢ x
unfolding address_of
address_Away o a x [] e w = ground arith
address_Away o a x (t ∷ ts) e w = ground (arith, address_Away o a x ts)

count_to_lem :
    (h : Heap) (o : String) (a k x rank : ℕ) (ts : List Tower)
    → Chain (links h 0) x ts
    → Apart ts
    → address_of o ts ≡ some a
    → length ts < k
    → count_to h a k (first ts) rank ≡ some (rank_from tower_entry o rank ts)
unfolding count_to address_of rank_from
count_to_lem h o a zero x rank ts c p e l = ground arith
count_to_lem h o a (suc k) x rank [] c p e l = ground arith
count_to_lem h o a (suc k) x rank (t ∷ ts) c p e l = elim (string_key.dec o t.entry.owner_id) [
  | yes q ↦ ground arith
  | no q ↦
      let e' : address_of o ts ≡ some a = ground arith in
      ground (
        arith,
        address_Away o a t.at ts e' p.0,
        Chain-first (links h 0) t.at ts c.1,
        count_to_lem h o a k t.at (rank + 1) ts c.1 p.1 e',
      )
]

pub rank_from_nobody :
    (o : String) (k : ℕ) (ts : List Tower)
    → address_of o ts ≡ none
    → rank_from tower_entry o k ts ≡ 0
unfolding address_of rank_from
rank_from_nobody o k [] e = refl
rank_from_nobody o k (t ∷ ts) e = ground (arith, rank_from_nobody o (k + 1) ts)

-- The lowest level leads through all nodes.
pub lowest : (s : SkipList) (ts : List Tower) → IsSkip s ts → Chain (links s.heap 0) s.head ts
lowest s ts ok =
    subst (Chain (links s.heap 0) s.head)
      (tall-All ts (All-map (Levels s.level) (λ t. 1 ≤ t.levels) (λ t p. p.0) ts ok.levels))
      (ok.linked.chains 0 (ground arith))

pub rank_of_locked_lem :
    (s : SkipList) (ts : List Tower) (o : String)
    → IsSkip s ts
    → rank_of_locked o s ≡ some (rank_from tower_entry o 1 ts)
unfolding rank_of_locked
rank_of_locked_lem s ts o ok = elim (Option-cases (address_of o ts)) [
  | inl q ↦ ground (arith, ok.owners o, rank_from_nobody o 1 ts q)
  | inr (a, q) ↦
      let c = lowest s ts ok in
      ground (
        arith,
        ok.owners o,
        Chain-first (links s.heap 0) s.head ts c,
        count_to_lem s.heap o a (suc s.size) s.head 1 ts c ok.linked.apart q
            (omega (arith, ok.size_ok)),
      )
]

advance_lem :
    (h : Heap) (x : ℕ) (ts : List Tower) (k : ℕ)
    → Chain (links h 0) x ts
    → (y : Option ℕ) × (advance h k (first ts) ≡ some y)
      × (y ≡ Option.map (λ t. t.at) (get_elem? ts k))
unfolding advance get_elem?
advance_lem h x [] zero c = (none, refl, refl)
advance_lem h x (t ∷ ts) zero c = (some t.at, refl, refl)
advance_lem h x [] (suc k) c = (none, refl, refl)
advance_lem h x (t ∷ ts) (suc k) c =
    let (y, r, e) = advance_lem h t.at ts k c.1 in
    (y, rw (Chain-first (links h 0) t.at ts c.1) r, e)

entry_read :
    (h : Heap) (ts : List Tower) (k : ℕ) (t : Tower)
    → All (Holds h) ts
    → get_elem? ts k ≡ some t
    → load_entry h t.at ≡ some t.entry
unfolding get_elem?
entry_read h [] k t a e = ground arith
entry_read h (u ∷ ts) zero t a e = ground (arith, load_entry-shape h u.at u.entry u.levels a.0)
entry_read h (u ∷ ts) (suc k) t a e = entry_read h ts k t a.1 e

past_end : (ts : List Tower) (k : ℕ) → length ts ≤ k → get_elem? ts k ≡ none
unfolding get_elem?
past_end [] k l = refl
past_end (t ∷ ts) zero l = ground arith
past_end (t ∷ ts) (suc k) l = past_end ts k (ground arith)

read_at :
    (h : Heap) (x : ℕ) (ts : List Tower) (k : ℕ)
    → Chain (links h 0) x ts
    → All (Holds h) ts
    → (do
      q ← load_next h x 0
      y ← advance h k q
      elim y [ none ↦ some none | some p ↦ do e ← load_entry h p; some (some e) ])
      ≡ some (Option.map tower_entry (get_elem? ts k))
read_at h x ts k c a =
    let (y, r, e) = advance_lem h x ts k c in
    elim (Option-cases (get_elem? ts k)) [
      | inl q ↦ rw (Chain-first (links h 0) x ts c, r, e, q) refl
      | inr (t, q) ↦ rw (Chain-first (links h 0) x ts c, r, e, q, entry_read h ts k t a q) refl
    ]

pub get_data_by_rank_lem :
    (s : SkipList) (ts : List Tower) (r : ℤ)
    → IsSkip s ts
    → get_data_by_rank r s ≡ some (if not s.enabled then none else entry_at r (entries ts))
unfolding get_data_by_rank entry_at
get_data_by_rank_lem s ts (negsuc m) ok = ground arith
get_data_by_rank_lem s ts (pos m) ok = ground (
  arith,
  read_at s.heap s.head ts (m - 1) (lowest s ts ok) ok.linked.nodes,
  past_end ts (m - 1),
  get_elem?-entries ts (m - 1),
  ok.size_ok,
)
