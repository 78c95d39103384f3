-- ===== src/Matchmaker/Fairness.antt =====
-- internal/matchmaker/process.go: which groups `matchDefault` forms, and when a division panics.
use ultimate_game_server.Prelude.{
  ℕ, zero, suc, ◌%◌, ◌<◌, String, ◌≡◌, refl, inl, inr, ◌&&◌, none, some, List, [], ◌∷◌, arith, ltb,
  ◌==◌, Option-cases, if_ind, Returns, Returns-map, Returns-elim, length, All, ◌≤ℤ◌, ltb_ℤ, leb_ℤ,
  ℤ, pos, negsuc, string_key,
}
use ultimate_game_server.Dict.{Dict, has, size}
use ultimate_game_server.Matchmaker.Ticket.{Ticket}
use ultimate_game_server.Matchmaker.Sizes.{
  players, group_size, party_count, remainder, group_satisfies_all,
}
use ultimate_game_server.Matchmaker.Fair.{group_satisfies_all_iff, IsFair}
use ultimate_game_server.Matchmaker.Pairing.{search_index}
use ultimate_game_server.Matchmaker.Groups.{
  last_interval, magnitude, single_group, few_tickets, index_ids, no_picks, mark, gather,
  candidates_of, can_match, match_seeds, match_default, Tick,
}
use ultimate_game_server.Dict.Sets.{KeySet}
use mathlib.Core.Option

-- What `submitLocked` makes sure of.
abbrev pub IsCounted : Ticket → Type 0
IsCounted t = pos 1 ≤ℤ t.count × pos 1 ≤ℤ t.count_multiple

players_counted : (c : ℤ) → pos 1 ≤ℤ c → (c ≡ pos (players c)) × (magnitude c ≡ players c)
unfolding players magnitude
players_counted (pos zero) h = ground (arith, h)
players_counted (pos (suc n)) h = (refl, refl)
players_counted (negsuc n) h = ground (arith, h)

remainder_of : (n r k : ℕ) → 1 < k → remainder n (pos k) ≡ some r → n % k ≡ r
unfolding remainder
remainder_of n r zero h e = ground arith
remainder_of n r (suc k) h e = Option.some-injective _ _ e

remainder_returns : (n : ℕ) (c : ℤ) → pos 1 ≤ℤ c → ¬ (remainder n c ≡ none)
unfolding remainder
remainder_returns n (pos zero) h e = ground (arith, h)
remainder_returns n (pos (suc m)) h e = cc e
remainder_returns n (negsuc m) h e = cc e

alone-IsFair :
    (t : Ticket) (rem : ℕ)
    → IsCounted t
    → t.min_count ≤ℤ t.count
    → t.count ≤ℤ t.max_count
    → remainder (magnitude t.count) t.count_multiple ≡ some rem
    → rem ≡ 0
    → IsFair (t ∷ [])
unfolding group_size
alone-IsFair t rem c least greatest e z =
    let (counted, same_size) = players_counted t.count c.0 in
    record {
      content = (
        record {
          enough = ground (arith, least, counted);
          not_too_many = ground (arith, greatest, counted);
          multiple = λ m f h.
              let e' : remainder (players t.count) (pos m) ≡ some rem = cc (e, f, same_size) in
              ground (arith, remainder_of (players t.count) rem m h e', z);
        },
        tt,
      );
      apart = ((λ ne. tt), tt);
    }

single_group_ind :
    (P : List (List Ticket) → Type 0) (max_intervals : ℤ) (t : Ticket)
    → IsCounted t
    → P []
    → (IsFair (t ∷ []) → P ((t ∷ []) ∷ []))
    → Returns P (single_group max_intervals t)
unfolding single_group
single_group_ind P max_intervals t c none_left alone =
    if_ind (Returns P) (leb_ℤ t.min_count t.count && leb_ℤ t.count t.max_count)
      (λ in_range. elim (Option-cases (remainder (magnitude t.count) t.count_multiple)) [
        | inl e ↦ elim (remainder_returns (magnitude t.count) t.count_multiple c.1 e) [ ]
        | inr (rem, e) ↦ rw e (
            if_ind P ((rem == 0) && last_interval max_intervals t)
              (λ ok. alone (
                alone-IsFair t rem c (ground (arith, in_range)) (ground (arith, in_range)) e
                  (ground (arith, ok))))
              (λ no. none_left))
      ])
      (λ out. none_left)

pub few_tickets_ind :
    (P : List (List Ticket) → Type 0) (max_intervals : ℤ) (tickets : List Ticket)
    → All IsCounted tickets
    → P []
    → ((t : Ticket) → IsFair (t ∷ []) → P ((t ∷ []) ∷ []))
    → Returns P (few_tickets max_intervals tickets)
unfolding few_tickets
few_tickets_ind P max_intervals [] c none_left alone = none_left
few_tickets_ind P max_intervals (t ∷ ts) c none_left alone =
    single_group_ind P max_intervals t c.0 none_left (alone t)

module _ {I : Type 0} (tick : Tick I) where
  pub candidates_of_returns :
      (index : I) (matched : KeySet String) (by_id : Dict String Ticket) (seed : Ticket)
      → pos 1 ≤ℤ seed.count_multiple
      → ¬ (candidates_of tick index matched by_id seed ≡ none)
  unfolding candidates_of
  candidates_of_returns index matched by_id seed h e =
      let hits = search_index tick.bleve index seed (size by_id) matched in
      let others = (gather tick index matched by_id seed hits (no_picks seed)).picked in
      elim (Option-cases (remainder (group_size (seed ∷ others)) seed.count_multiple)) [
        | inl n ↦ remainder_returns _ _ h n
        | inr (rem, n) ↦ ground (arith, n, e)
      ]

  match_seeds-IsFair :
      (index : I) (by_id : Dict String Ticket) (seeds : List Ticket) (matched : KeySet String)
      → All IsCounted seeds
      → Returns (All IsFair) (match_seeds tick index by_id seeds matched)
  unfolding match_seeds
  match_seeds-IsFair index by_id [] matched c = tt
  match_seeds-IsFair index by_id (seed ∷ rest) matched (c, cs) =
      let skipped = match_seeds-IsFair index by_id rest matched cs in
      if_ind (Returns (All IsFair)) (has seed.id matched) (λ used. skipped)
        (λ fresh. elim (Option-cases (candidates_of tick index matched by_id seed)) [
          | inl e ↦ elim (candidates_of_returns index matched by_id seed c.1 e) [ ]
          | inr (group, e) ↦ rw e (
              if_ind (Returns (All IsFair)) (can_match tick seed group && group_satisfies_all group)
                (λ ok.
                  Returns-map (All IsFair) (All IsFair) (λ gs. group ∷ gs)
                    (λ gs h. ((group_satisfies_all_iff group).0 (ground (arith, ok)), h)) _
                    (match_seeds-IsFair index by_id rest (mark group matched) cs))
                (λ no. skipped))
        ])

  match_default-Returns :
      (tickets : List Ticket)
      → All IsCounted tickets
      → Returns (All IsFair) (match_default tick tickets)
  unfolding match_default
  match_default-Returns tickets c =
      if_ind (Returns (All IsFair))
        (ltb (length tickets) 2 && ltb_ℤ (party_count tickets) tick.queue.min_players)
        {y = elim (tick.bleve.new_index tickets) [
          | none ↦ some []
          | some index ↦ match_seeds tick index (index_ids [] tickets) tickets []
        ]}
        (λ few.
          few_tickets_ind (All IsFair) tick.config.max_intervals tickets c tt (λ t f. (f, tt)))
        (λ many. elim (Option-cases (tick.bleve.new_index tickets)) [
          | inl e ↦ rw e tt
          | inr (index, e) ↦ rw e (match_seeds-IsFair index (index_ids [] tickets) tickets [] c)
        ])

  -- If the count and the count multiple of every ticket are positive, `matchDefault` returns without
  -- a panic, and each group that it forms is one that no party enters twice and whose number of
  -- players lies between the least and the greatest count of each of its tickets and is a multiple
  -- of each count multiple above one.
  pub match_default-IsFair :
      (tickets : List Ticket)
      → All IsCounted tickets
      → (groups : List (List Ticket)) × (match_default tick tickets ≡ some groups)
        × All IsFair groups
  match_default-IsFair tickets c = Returns-elim (All IsFair) _ (match_default-Returns tickets c)
