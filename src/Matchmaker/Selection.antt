-- ===== src/Matchmaker/Selection.antt =====
-- internal/matchmaker/process.go: the loop of `processQueue` that picks, of the groups that the
-- default matching, a processor or an override gave, those that are finalized.
use ultimate_game_server.Prelude.{
  ℕ, ◌+◌, ◌≤◌, ◌<◌, String, ◌≡◌, refl, Bool, true, not, ◌&&◌, ◌||◌, List, [], ◌∷◌, arith, ltb, ◌==◌,
  if◌then◌else◌, if_ind, length, All, string_key,
}
use ultimate_game_server.Dict.{has}
use ultimate_game_server.Matchmaker.Ticket.{Ticket}
use ultimate_game_server.Matchmaker.Groups.{mark}
use ultimate_game_server.Matchmaker.Occurrences.{bit, occurs, mark-has}
use ultimate_game_server.Dict.Sets.{KeySet}

-- `valid` stays true: no ticket of the group is used.
unfoldable pub is_unused : KeySet String → List Ticket → Bool
is_unused matched [] = true
is_unused matched (t ∷ ts) = not (has t.id matched) && is_unused matched ts

-- The groups that `finalizeMatch` is called on, in order.
unfoldable pub select_groups : KeySet String → List (List Ticket) → List (List Ticket)
unfolding is_unused mark
select_groups matched [] = []
select_groups matched (g ∷ gs) =
    let skipped = select_groups matched gs in
    let taken = select_groups (mark g matched) gs in
    if (length g == 0) || not (is_unused matched g) then skipped else g ∷ taken

-- In how many groups an id stands.
unfoldable pub groups_with : String → List (List Ticket) → ℕ
groups_with x [] = 0
groups_with x (g ∷ gs) = bit (ltb 0 (occurs x g)) + groups_with x gs

is_unused-occurs :
    (matched : KeySet String) (g : List Ticket) (x : String)
    → is_unused matched g ≡ true
    → has x matched ≡ true
    → occurs x g ≡ 0
unfolding is_unused occurs
is_unused-occurs matched [] x u h = refl
is_unused-occurs matched (t ∷ ts) x u h = ground (arith, u, h, is_unused-occurs matched ts x)

select_groups-apart :
    (gs : List (List Ticket)) (matched : KeySet String) (x : String)
    → groups_with x (select_groups matched gs) + bit (has x matched) ≤ 1
unfolding select_groups groups_with
select_groups-apart [] matched x = ground arith
select_groups-apart (g ∷ gs) matched x = ground (
  arith,
  is_unused-occurs matched g x,
  mark-has g matched x,
  select_groups-apart gs matched x,
  select_groups-apart gs (mark g matched) x,
)

select_groups_used :
    (gs : List (List Ticket)) (matched : KeySet String)
    → All (λ g. 0 < length g) (select_groups matched gs)
unfolding select_groups
select_groups_used [] matched = tt
select_groups_used (g ∷ gs) matched =
    if_ind (All (λ (h : List Ticket). 0 < length h)) ((length g == 0) || not (is_unused matched g))
      (λ skip. select_groups_used gs matched)
      (λ take. (ground (arith, take), select_groups_used gs (mark g matched)))

-- Whatever groups the default matching, a processor or an override gives, none of those that one
-- pass over a queue finalizes is empty, and no ticket id stands in two of them.
pub select_groups_lem :
    (gs : List (List Ticket))
    → ((x : String) → groups_with x (select_groups [] gs) ≤ 1)
      × All (λ g. 0 < length g) (select_groups [] gs)
select_groups_lem gs = (λ x. ground (arith, select_groups-apart gs [] x), select_groups_used gs [])
