-- ===== src/Matchmaker/Groups.antt =====
-- internal/matchmaker/process.go: `matchDefault`. A result of `none` is a panic, of a division by a
-- count multiple of zero.
use ultimate_game_server.Prelude.{
  ℕ, suc, String, Bool, false, not, ◌&&◌, ◌||◌, Option, none, some, List, [], ◌∷◌, ◌++◌, ltb, ◌==◌,
  if◌then◌else◌, length, same, ltb_ℤ, leb_ℤ, ℤ, pos, negsuc, string_key,
}
use ultimate_game_server.Dict.{Dict, lookup, has, insert, size}
use ultimate_game_server.Matchmaker.Ticket.{Ticket, QueueConfig, MatchmakerConfig}
use ultimate_game_server.Matchmaker.Sizes.{group_size, party_count, remainder, group_satisfies_all}
use ultimate_game_server.Matchmaker.Trim.{trim_to_multiple}
use ultimate_game_server.Matchmaker.Pairing.{
  compatible_range, search_index, evaluate_pairing, Bleve,
}
use ultimate_game_server.Dict.Sets.{KeySet, add}
use mathlib.Core.Option

-- What a tick reads besides the tickets: the configuration, the clock and the index.
pub record Tick (I : Type 0) : Type 0 where
  pub bleve : Bleve I
  pub config : MatchmakerConfig
  pub queue : QueueConfig
  pub now : ℕ

-- `seed.Intervals >= maxIntervals || seed.MinCount == seed.MaxCount`
unfoldable pub last_interval : ℤ → Ticket → Bool
last_interval max_intervals t =
    leb_ℤ max_intervals t.intervals
    || (leb_ℤ t.min_count t.max_count && leb_ℤ t.max_count t.min_count)

unfoldable pub magnitude : ℤ → ℕ
magnitude (pos n) = n
magnitude (negsuc n) = suc n

-- The only ticket of a queue, as a group of its own.
unfoldable pub single_group : ℤ → Ticket → Option (List (List Ticket))
unfolding last_interval magnitude remainder
single_group max_intervals t =
    if leb_ℤ t.min_count t.count && leb_ℤ t.count t.max_count
    then Option.map
        (λ rem. if (rem == 0) && last_interval max_intervals t then (t ∷ []) ∷ [] else [])
        (remainder (magnitude t.count) t.count_multiple)
    else some []

-- What is left to do with fewer than two tickets.
unfoldable pub few_tickets : ℤ → List Ticket → Option (List (List Ticket))
unfolding single_group
few_tickets max_intervals [] = some []
few_tickets max_intervals (t ∷ ts) = single_group max_intervals t

unfoldable pub index_ids : Dict String Ticket → List Ticket → Dict String Ticket
index_ids by_id [] = by_id
index_ids by_id (t ∷ ts) = index_ids (insert t.id t by_id) ts

-- The tickets taken beside the seed, in order; `full` is set by the `break`.
pub record Picks : Type 0 where
  pub picked : List Ticket
  pub party_seen : KeySet String
  pub full : Bool

unfoldable pub no_picks : Ticket → Picks
no_picks seed = record {
  picked = [];
  party_seen = if same seed.party_id "" then [] else add seed.party_id [];
  full = false;
}

unfoldable pub rev_threshold_of : QueueConfig → ℤ
rev_threshold_of cfg =
    let ticks = cfg.reverse_precision.reverse_threshold_ticks in
    if leb_ℤ ticks (pos 0) then pos 10 else ticks

unfoldable pub mark : List Ticket → KeySet String → KeySet String
mark [] matched = matched
mark (t ∷ ts) matched = mark ts (add t.id matched)

module _ {I : Type 0} (tick : Tick I) where
  -- The `continue`s of the loop over the hits, before the softfill.
  unfoldable pub rejected : I → KeySet String → Ticket → Ticket → Picks → Bool
  unfolding compatible_range evaluate_pairing rev_threshold_of
  rejected index matched seed other st =
      let rev_enabled = tick.config.rev_precision || tick.queue.reverse_precision.enabled in
      has other.id matched
      || ((not (same other.party_id "") && has other.party_id st.party_seen)
          || (not (compatible_range seed other)
              || not (
                  evaluate_pairing tick.bleve seed other tick.queue tick.now rev_enabled
                    (rev_threshold_of tick.queue) index)))

  unfoldable pub consider : I → KeySet String → Ticket → Ticket → Picks → Picks
  unfolding rejected group_size last_interval
  consider index matched seed other st =
      let tentative = st.picked ++ (other ∷ []) in
      let size = group_size (seed ∷ tentative) in
      let over = ltb_ℤ seed.max_count (pos size) in
      if rejected index matched seed other st
        || ((not (last_interval tick.config.max_intervals seed) && over) || over)
      then st
      else record {
        picked = tentative;
        party_seen =
            if same other.party_id "" then st.party_seen else add other.party_id st.party_seen;
        full = leb_ℤ seed.max_count (pos size);
      }

  unfoldable pub gather :
      I → KeySet String → Dict String Ticket → Ticket → List String → Picks → Picks
  unfolding consider
  gather index matched by_id seed [] st = st
  gather index matched by_id seed (hid ∷ hits) st =
      let st' : Picks = elim (lookup hid by_id) [
        | none ↦ st
        | some other ↦ consider index matched seed other st
      ] in
      let rest = gather index matched by_id seed hits st' in if st.full then st else rest

  -- The group that a seed ends with, before it is tested: `none` if the division panics.
  unfoldable pub candidates_of :
      I → KeySet String → Dict String Ticket → Ticket → Option (List Ticket)
  unfolding gather search_index no_picks remainder trim_to_multiple
  candidates_of index matched by_id seed =
      let hits = search_index tick.bleve index seed (size by_id) matched in
      let others = (gather index matched by_id seed hits (no_picks seed)).picked in
      Option.map
        (λ rem.
          if rem == 0
          then seed ∷ others
          else trim_to_multiple seed others seed.count_multiple seed.min_count)
        (remainder (group_size (seed ∷ others)) seed.count_multiple)

  unfoldable pub can_match : Ticket → List Ticket → Bool
  unfolding last_interval group_size
  can_match seed group =
      let size = pos (group_size group) in
      (leb_ℤ size seed.max_count && leb_ℤ seed.max_count size)
      || (last_interval tick.config.max_intervals seed
          && (leb_ℤ seed.min_count size && leb_ℤ size seed.max_count))

  -- The loop over the seeds.
  unfoldable pub match_seeds :
      I → Dict String Ticket → List Ticket → KeySet String → Option (List (List Ticket))
  unfolding candidates_of can_match group_satisfies_all mark
  match_seeds index by_id [] matched = some []
  match_seeds index by_id (seed ∷ rest) matched =
      let skipped = match_seeds index by_id rest matched in
      if has seed.id matched then skipped else (elim (candidates_of index matched by_id seed) [
        | none ↦ none
        | some group ↦
            let taken = match_seeds index by_id rest (mark group matched) in
            if can_match seed group && group_satisfies_all group
            then Option.map (λ groups. group ∷ groups) taken
            else skipped
      ])

  unfoldable pub match_default : List Ticket → Option (List (List Ticket))
  unfolding match_seeds few_tickets party_count index_ids
  match_default tickets =
      if ltb (length tickets) 2 && ltb_ℤ (party_count tickets) tick.queue.min_players
      then few_tickets tick.config.max_intervals tickets
      else (elim (tick.bleve.new_index tickets) [
        | none ↦ some []
        | some index ↦ match_seeds index (index_ids [] tickets) tickets []
      ])
