-- ===== src/Leaderboard/Adding.antt =====
-- `Insert` of internal/leaderboard/admin.go puts the entry of a new owner at its place.
use ultimate_game_server.Prelude.{
  ℕ, suc, ◌+◌, String, ◌≡◌, refl, sym, ◌≢◌, Bool, none, some, List, [], ◌∷◌, ◌++◌, arith,
  if◌then◌else◌, length, All, All-append, All-of_append, All-and, same, string_key,
}
use ultimate_game_server.Leaderboard.Entry.{less_total, RankEntry}
use ultimate_game_server.Leaderboard.Nodes.{load_next, new_node, shape, Heap}
use ultimate_game_server.Leaderboard.Ranking.{
  lower, upper, Follow, Ordered, lower-upper, All-lower, All-upper, Ordered-append, append-Ordered,
}
use ultimate_game_server.Leaderboard.Towers.{Away, Apart, Tower}
use ultimate_game_server.Leaderboard.Walks.{Better, NotBetter}
use ultimate_game_server.Leaderboard.SkipListOk.{address_of, tower_entry}
use mathlib.Core.Path.{subst}

abbrev pub OtherOwner : RankEntry → Tower → Type 0
OtherOwner e t = t.entry.owner_id ≢ e.owner_id

-- The nodes with one more at its place.
abbrev pub with_tower : Bool → Tower → List Tower → List Tower
with_tower asc n ts = lower tower_entry asc n.entry ts ++ n ∷ upper tower_entry asc n.entry ts

pub new_node_lem :
    (h : Heap) (e : RankEntry) (k : ℕ)
    → (shape (new_node h e k) h.fresh ≡ some (e, k))
      × ((y : ℕ) → y ≢ h.fresh → shape (new_node h e k) y ≡ shape h y)
      × ((y i : ℕ) → y ≢ h.fresh → load_next (new_node h e k) y i ≡ load_next h y i)
unfolding new_node shape load_next
new_node_lem h e k = (ground arith, (λ y q. ground arith), λ y i q. ground arith)

pub new_node_fresh : (h : Heap) (e : RankEntry) (k : ℕ) → (new_node h e k).fresh ≡ suc h.fresh
unfolding new_node
new_node_fresh h e k = refl

-- A node in memory is not at a fresh address.
pub not_fresh :
    (h : Heap) (x y : ℕ) (v : RankEntry × ℕ) → shape h x ≡ some v → shape h y ≡ none → x ≢ y
not_fresh h x y v s u q = cc (s, u, q)

pub with_Ordered :
    (asc : Bool) (n : Tower) (ts : List Tower)
    → Ordered tower_entry asc ts
    → All (OtherOwner n.entry) ts
    → Ordered tower_entry asc (with_tower asc n ts)
with_Ordered asc n ts o w =
    let e = n.entry in
    let xs = lower tower_entry asc e ts in
    let ys = upper tower_entry asc e ts in
    let split = lower-upper tower_entry asc e ts in
    let (ox, oy, xy) =
      Ordered-append tower_entry asc xs ys (subst (Ordered tower_entry asc) (sym split) o) in
    let (wx, wy) = All-of_append (OtherOwner e) xs ys (subst (All (OtherOwner e)) (sym split) w) in
    let behind : All (Follow tower_entry asc n) ys =
      All-and (OtherOwner e) (NotBetter asc e) (Follow tower_entry asc n)
        (λ t q b. (less_total asc t.entry e q b, λ z. q (sym z))) ys wy
        (All-upper tower_entry asc e ts o) in
    let ahead : All (λ t. Follow tower_entry asc t n) xs =
      All-and (OtherOwner e) (Better asc e) (λ t. Follow tower_entry asc t n) (λ t q b. (b, q)) xs
        wx (All-lower tower_entry asc e ts) in
    append-Ordered tower_entry asc xs (n ∷ ys) ox (behind, oy)
      (All-and (λ t. Follow tower_entry asc t n) (λ t. All (Follow tower_entry asc t) ys)
        (λ t. All (Follow tower_entry asc t) (n ∷ ys)) (λ t a b. (a, b)) xs ahead xy)

pub with_address :
    (asc : Bool) (n : Tower) (ts : List Tower) (o : String)
    → All (OtherOwner n.entry) ts
    → address_of o (with_tower asc n ts)
      ≡ (if same o n.entry.owner_id then some n.at else address_of o ts)
unfolding address_of lower upper
with_address asc n [] o w = refl
with_address asc n (t ∷ ts) o w = ground (arith, with_address asc n ts o)

pub with_Apart :
    (n : Tower) (xs ys : List Tower)
    → Apart (xs ++ ys)
    → Away n.at (xs ++ ys)
    → Apart (xs ++ n ∷ ys)
with_Apart n [] ys a w = (w, a)
with_Apart n (t ∷ xs) ys a w =
    let (p, q) = All-of_append (λ u. u.at ≢ t.at) xs ys a.0 in
    (
      All-append (λ u. u.at ≢ t.at) xs (n ∷ ys) p ((λ z. w.0 (sym z)), q),
      with_Apart n xs ys a.1 w.1,
    )

module _ {κ} (P : Tower → Type κ) (asc : Bool) where
  pub All-split :
      (e : RankEntry) (ts : List Tower)
      → All P ts
      → All P (lower tower_entry asc e ts) × All P (upper tower_entry asc e ts)
  All-split e ts a =
      All-of_append P (lower tower_entry asc e ts) (upper tower_entry asc e ts)
        (subst (All P) (sym (lower-upper tower_entry asc e ts)) a)

  pub All-with : (n : Tower) (ts : List Tower) → All P ts → P n → All P (with_tower asc n ts)
  All-with n ts a p =
      let (x, y) = All-split n.entry ts a in
      All-append P (lower tower_entry asc n.entry ts) (n ∷ upper tower_entry asc n.entry ts) x
        (p, y)

pub length-with :
    (asc : Bool) (n : Tower) (ts : List Tower) → length (with_tower asc n ts) ≡ length ts + 1
unfolding lower upper
length-with asc n [] = refl
length-with asc n (t ∷ ts) = ground (arith, length-with asc n ts)
