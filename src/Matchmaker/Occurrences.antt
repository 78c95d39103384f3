-- ===== src/Matchmaker/Occurrences.antt =====
-- internal/matchmaker/process.go: how often a ticket id stands in a group, through every step that
-- builds the group.
use ultimate_game_server.Prelude.{
  ℕ, zero, suc, ◌+◌, ◌-◌, ◌%◌, ◌≤◌, String, ◌≡◌, inl, inr, Bool, true, false, ◌||◌, some, List, [],
  ◌∷◌, ◌++◌, arith, ltb, if◌then◌else◌, Option-cases, length, same, ℤ, pos, negsuc, string_key,
}
use ultimate_game_server.Dict.{Dict, lookup, has, insert, lookup-insert}
use ultimate_game_server.Matchmaker.Ticket.{Ticket}
use ultimate_game_server.Matchmaker.Sizes.{players, group_size}
use ultimate_game_server.Matchmaker.Trim.{
  drop_fitting, drop_last, drop_one, trim_loop, trim_to_multiple,
}
use ultimate_game_server.Matchmaker.Pairing.{open_hits}
use ultimate_game_server.Matchmaker.Groups.{index_ids, mark}
use ultimate_game_server.Dict.Sets.{KeySet, add}

-- A Boolean as a number.
abbrev pub bit : Bool → ℕ
bit true = 1
bit false = 0

unfoldable pub occurs : String → List Ticket → ℕ
occurs x [] = 0
occurs x (t ∷ ts) = bit (same x t.id) + occurs x ts

unfoldable pub hit_count : String → List String → ℕ
hit_count x [] = 0
hit_count x (h ∷ hs) = bit (same x h) + hit_count x hs

pub occurs-append :
    (x : String) (ts us : List Ticket) → occurs x (ts ++ us) ≡ occurs x ts + occurs x us
unfolding occurs
occurs-append x [] us = omega arith
occurs-append x (t ∷ ts) us = ground (arith, occurs-append x ts us)

drop_fitting-occurs :
    (rem : ℕ) (ts : List Ticket) (d : Ticket) (kept : List Ticket) (x : String)
    → drop_fitting rem ts ≡ some (d, kept)
    → occurs x kept ≤ occurs x ts
unfolding drop_fitting occurs
drop_fitting-occurs rem [] d kept x e = ground (arith, e)
drop_fitting-occurs rem (t ∷ ts) d kept x e = elim (Option-cases (drop_fitting rem ts)) [
  | inl n ↦ ground (arith, e, n)
  | inr ((d', kept'), n) ↦ ground (arith, e, n, drop_fitting-occurs rem ts d' kept' x n)
]

drop_last-occurs :
    (t : Ticket) (ts : List Ticket) (x : String) → occurs x (drop_last t ts).1 ≤ occurs x (t ∷ ts)
unfolding drop_last occurs
drop_last-occurs t [] x = ground arith
drop_last-occurs t (u ∷ ts) x = ground (arith, drop_last-occurs u ts x)

drop_one-occurs :
    (rem : ℕ) (t : Ticket) (ts : List Ticket) (x : String)
    → occurs x (drop_one rem t ts).1 ≤ occurs x (t ∷ ts)
unfolding drop_one
drop_one-occurs rem t ts x = elim (Option-cases (drop_fitting rem (t ∷ ts))) [
  | inl e ↦ rw (e, drop_one) (drop_last-occurs t ts x)
  | inr ((d, kept), e) ↦ rw (e, drop_one) (drop_fitting-occurs rem (t ∷ ts) d kept x e)
]

trim_loop-occurs :
    (fuel rem : ℕ) (ts : List Ticket) (x : String) → occurs x (trim_loop fuel rem ts) ≤ occurs x ts
unfolding trim_loop
trim_loop-occurs zero rem ts x = ground arith
trim_loop-occurs (suc fuel) rem [] x = ground arith
trim_loop-occurs (suc fuel) rem (t ∷ ts) x =
    let (d, kept) = drop_one rem t ts in
    ground (arith, drop_one-occurs rem t ts x, trim_loop-occurs fuel (rem - players d.count) kept x)

pub trim_to_multiple-occurs :
    (seed : Ticket) (others : List Ticket) (multiple min_count : ℤ) (x : String)
    → occurs x (trim_to_multiple seed others multiple min_count) ≤ occurs x (seed ∷ others)
unfolding trim_to_multiple occurs
trim_to_multiple-occurs seed others (negsuc m) min_count x = ground arith
trim_to_multiple-occurs seed others (pos m) min_count x =
    let rem = group_size (seed ∷ others) % m in
    ground (arith, trim_loop-occurs (length others) rem others x)

pub open_hits-hit_count :
    (seed : String) (matched : KeySet String) (hits : List String) (x : String)
    → hit_count x (open_hits seed matched hits)
      ≡ (if same x seed || has x matched then 0 else hit_count x hits)
unfolding open_hits hit_count
open_hits-hit_count seed matched [] x = ground arith
open_hits-hit_count seed matched (h ∷ hits) x =
    ground (arith, open_hits-hit_count seed matched hits x)

pub mark-has :
    (group : List Ticket) (matched : KeySet String) (x : String)
    → has x (mark group matched) ≡ (has x matched || ltb 0 (occurs x group))
unfolding mark occurs
mark-has [] matched x = ground arith
mark-has (t ∷ ts) matched x =
    ground (arith, mark-has ts (add t.id matched) x, lookup-insert x t.id tt matched)

-- Each ticket is kept under its own id.
pub index_ids-own :
    (by_id : Dict String Ticket) (tickets : List Ticket)
    → ((x : String) (t : Ticket) → lookup x by_id ≡ some t → t.id ≡ x)
    → (x : String) (t : Ticket) → lookup x (index_ids by_id tickets) ≡ some t
    → t.id ≡ x
unfolding index_ids
index_ids-own by_id [] h = h
index_ids-own by_id (t ∷ ts) h =
    index_ids-own (insert t.id t by_id) ts
      (λ x u e. ground (arith, e, h x u, lookup-insert x t.id t by_id))
