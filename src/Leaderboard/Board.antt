-- ===== src/Leaderboard/Board.antt =====
-- The ranking that a skip list of internal/leaderboard/admin.go stands for: the entries alone, the
-- best first.
use ultimate_game_server.Prelude.{
  ℕ, zero, suc, ◌+◌, ◌-◌, String, ◌≡◌, refl, ◌∙◌, Bool, Option, none, some, List, [], ◌∷◌, ◌++◌,
  arith, if◌then◌else◌, same, pos_part, ltb_ℤ, ℤ, pos, string_key,
}
use ultimate_game_server.Leaderboard.Entry.{less, RankEntry}
use ultimate_game_server.Leaderboard.Ranking.{lower, upper, without}
use ultimate_game_server.Leaderboard.Towers.{Tower}
use ultimate_game_server.Leaderboard.SkipListOk.{tower_entry, entries}
use ultimate_game_server.Leaderboard.Adding.{with_tower}
use mathlib.Core.Option

abbrev pub self : RankEntry → RankEntry
self e = e

module _ {A : Type 0} (entry : A → RankEntry) where
  -- The place of the owner, counted from `k`, or 0.
  unfoldable pub rank_from : String → ℕ → List A → ℕ
  rank_from o k [] = 0
  rank_from o k (t ∷ ts) = if same o (entry t).owner_id then k else rank_from o (k + 1) ts

-- What stands at a place, counted from 0.
unfoldable pub get_elem? {ℓ} : {A : Type ℓ} → List A → ℕ → Option A
get_elem? [] i = none
get_elem? (x ∷ xs) zero = some x
get_elem? (x ∷ xs) (suc i) = get_elem? xs i

unfoldable pub rank_in : String → List RankEntry → ℕ
unfolding rank_from
rank_in o l = rank_from self o 1 l

-- The entry of the owner goes, the new one comes to its place.
unfoldable pub with_entry : Bool → RankEntry → List RankEntry → List RankEntry
unfolding lower upper without
with_entry asc e l =
    let others = without self asc e.owner_id l in
    lower self asc e others ++ e ∷ upper self asc e others

unfoldable pub without_entry : Bool → String → List RankEntry → List RankEntry
unfolding without
without_entry asc o l = without self asc o l

unfoldable pub entry_at : ℤ → List RankEntry → Option RankEntry
unfolding get_elem?
entry_at r l = if ltb_ℤ r (pos 1) then none else get_elem? l (pos_part r - 1)

-- How many entries are better.
unfoldable pub better_count : Bool → RankEntry → List RankEntry → ℕ
better_count asc e [] = 0
better_count asc e (x ∷ l) =
    if less asc x e then suc (better_count asc e l) else better_count asc e l

-- The nodes of a skip list give the same as their entries.
entries-lower :
    (asc : Bool) (e : RankEntry) (ts : List Tower)
    → entries (lower tower_entry asc e ts) ≡ lower self asc e (entries ts)
unfolding lower
entries-lower asc e [] = refl
entries-lower asc e (t ∷ ts) = ground (arith, entries-lower asc e ts)

entries-upper :
    (asc : Bool) (e : RankEntry) (ts : List Tower)
    → entries (upper tower_entry asc e ts) ≡ upper self asc e (entries ts)
unfolding upper
entries-upper asc e [] = refl
entries-upper asc e (t ∷ ts) = ground (arith, entries-upper asc e ts)

pub entries-without :
    (asc : Bool) (o : String) (ts : List Tower)
    → entries (without tower_entry asc o ts) ≡ without_entry asc o (entries ts)
unfolding without without_entry
entries-without asc o [] = refl
entries-without asc o (t ∷ ts) = ground (arith, entries-without asc o ts)

entries-append : (xs ys : List Tower) → entries (xs ++ ys) ≡ entries xs ++ entries ys
entries-append [] ys = refl
entries-append (x ∷ xs) ys = cc (entries-append xs ys)

pub entries-with :
    (asc : Bool) (n : Tower) (ts : List Tower)
    → entries (with_tower asc n (without tower_entry asc n.entry.owner_id ts))
      ≡ with_entry asc n.entry (entries ts)
unfolding with_entry without_entry
entries-with asc n ts =
    let o = n.entry.owner_id in
    let rest = without tower_entry asc o ts in
    entries-append (lower tower_entry asc n.entry rest) (n ∷ upper tower_entry asc n.entry rest)
    ∙ cc (entries-lower asc n.entry rest, entries-upper asc n.entry rest, entries-without asc o ts)

pub rank_from-entries :
    (o : String) (k : ℕ) (ts : List Tower)
    → rank_from tower_entry o k ts ≡ rank_from self o k (entries ts)
unfolding rank_from
rank_from-entries o k [] = refl
rank_from-entries o k (t ∷ ts) = ground (arith, rank_from-entries o (k + 1) ts)

pub get_elem?-entries :
    (ts : List Tower) (i : ℕ) → get_elem? (entries ts) i ≡ Option.map tower_entry (get_elem? ts i)
unfolding get_elem?
get_elem?-entries [] i = refl
get_elem?-entries (t ∷ ts) zero = refl
get_elem?-entries (t ∷ ts) (suc i) = get_elem?-entries ts i
