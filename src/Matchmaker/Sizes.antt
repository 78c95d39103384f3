-- ===== src/Matchmaker/Sizes.antt =====
-- internal/matchmaker/process.go: how many players a group of tickets holds, and whether every
-- ticket of the group is content with it.
use ultimate_game_server.Prelude.{
  ℕ, zero, suc, ◌+◌, ◌%◌, String, Bool, true, false, not, ◌&&◌, ◌||◌, Option, none, some, List, [],
  ◌∷◌, ltb, ◌==◌, if◌then◌else◌, same, ltb_ℤ, leb_ℤ, add_ℤ, ℤ, pos, negsuc, string_key,
}
use ultimate_game_server.Dict.{has}
use ultimate_game_server.Matchmaker.Ticket.{Ticket}
use ultimate_game_server.Dict.Sets.{KeySet, add}

-- A count that is not positive stands for one player.
unfoldable pub players : ℤ → ℕ
players (pos zero) = 1
players (pos (suc n)) = suc n
players (negsuc n) = 1

unfoldable pub group_size : List Ticket → ℕ
unfolding players
group_size [] = 0
group_size (t ∷ ts) = players t.count + group_size ts

-- `partyCount`, where the count itself may be negative.
unfoldable pub party_count : List Ticket → ℤ
unfolding players
party_count [] = pos 0
party_count (t ∷ ts) =
    add_ℤ t.count (add_ℤ (if leb_ℤ t.count (pos 0) then pos 1 else pos 0) (party_count ts))

-- `size%m`; a divisor of zero panics.
unfoldable pub remainder : ℕ → ℤ → Option ℕ
remainder n (pos zero) = none
remainder n (pos (suc m)) = some (n % suc m)
remainder n (negsuc m) = some (n % suc m)

-- `t.CountMultiple > 1 && size%t.CountMultiple != 0`
unfoldable pub off_multiple : ℕ → ℤ → Bool
off_multiple n (pos m) = ltb 1 m && not (n % m == 0)
off_multiple n (negsuc m) = false

unfoldable pub out_of_range : ℕ → Ticket → Bool
out_of_range n t = ltb_ℤ (pos n) t.min_count || ltb_ℤ t.max_count (pos n)

-- The loop of `groupSatisfiesAll`; the counters above one leave the loop, so a set is enough.
unfoldable pub satisfies_each : ℕ → KeySet String → List Ticket → Bool
unfolding off_multiple out_of_range
satisfies_each n parties [] = true
satisfies_each n parties (t ∷ ts) =
    not (not (same t.party_id "") && has t.party_id parties)
    && (not (out_of_range n t)
        && (not (off_multiple n t.count_multiple)
            && satisfies_each n (if same t.party_id "" then parties else add t.party_id parties)
                ts))

unfoldable pub group_satisfies_all : List Ticket → Bool
unfolding satisfies_each group_size
group_satisfies_all ts = satisfies_each (group_size ts) [] ts
