-- ===== src/Matchmaker/Disjoint.antt =====
-- internal/matchmaker/process.go: how often the groups of `matchDefault` hold a ticket.
use ultimate_game_server.Prelude.{
  ℕ, ◌+◌, ◌≤◌, String, ◌≡◌, inl, inr, Bool, true, false, ◌&&◌, ◌||◌, none, some, List, [], ◌∷◌,
  arith, ltb, if◌then◌else◌, Option-cases, if_ind, Returns, Returns-map, Returns-weaken,
  Returns-elim, length, All, same, ltb_ℤ, string_key,
}
use ultimate_game_server.Dict.{Dict, lookup, has, size}
use ultimate_game_server.Matchmaker.Ticket.{Ticket}
use ultimate_game_server.Matchmaker.Sizes.{group_size, party_count, remainder, group_satisfies_all}
use ultimate_game_server.Matchmaker.Pairing.{query_of, search_index, IndexQuery}
use ultimate_game_server.Matchmaker.Groups.{
  index_ids, no_picks, mark, rejected, consider, gather, candidates_of, can_match, match_seeds,
  match_default, Tick, Picks,
}
use ultimate_game_server.Matchmaker.Fairness.{IsCounted, few_tickets_ind, candidates_of_returns}
use ultimate_game_server.Matchmaker.Occurrences.{
  bit, occurs, hit_count, occurs-append, trim_to_multiple-occurs, open_hits-hit_count, mark-has,
  index_ids-own,
}
use ultimate_game_server.Dict.Sets.{KeySet}

unfoldable pub occurs_in_all : String → List (List Ticket) → ℕ
occurs_in_all x [] = 0
occurs_in_all x (g ∷ gs) = occurs x g + occurs_in_all x gs

module _ {I : Type 0} (tick : Tick I) where
  consider-occurs :
      (index : I) (matched : KeySet String) (seed other : Ticket) (st : Picks) (x : String)
      → occurs x (consider tick index matched seed other st).picked
        ≤ occurs x st.picked + (if has x matched then 0 else bit (same x other.id))
  unfolding consider rejected occurs
  consider-occurs index matched seed other st x =
      ground (arith, occurs-append x st.picked (other ∷ []))

  gather-occurs :
      (index : I) (matched : KeySet String) (by_id : Dict String Ticket) (seed : Ticket)
      (hits : List String) (st : Picks) (x : String)
      → ((x : String) (t : Ticket) → lookup x by_id ≡ some t → t.id ≡ x)
      → occurs x (gather tick index matched by_id seed hits st).picked
        ≤ occurs x st.picked + (if has x matched then 0 else hit_count x hits)
  unfolding gather hit_count
  gather-occurs index matched by_id seed [] st x own = ground arith
  gather-occurs index matched by_id seed (hid ∷ hits) st x own =
      elim (Option-cases (lookup hid by_id)) [
        | inl n ↦ ground (arith, n, gather-occurs index matched by_id seed hits st x own)
        | inr (other, n) ↦ ground (
          arith,
          n,
          own hid other n,
          consider-occurs index matched seed other st x,
          gather-occurs index matched by_id seed hits (consider tick index matched seed other st) x
              own,
        )
      ]

  -- The hits of one search name no document twice.
  abbrev pub IsOnceHit : Type 0
  IsOnceHit =
      (i : I) (q : IndexQuery) (n : ℕ) (sorted : Bool) (hits : List String)
      → tick.bleve.search i q n sorted ≡ some hits
      → (x : String) → hit_count x hits ≤ 1

  search_index-hit_count :
      (index : I) (seed : Ticket) (limit : ℕ) (matched : KeySet String) (x : String)
      → IsOnceHit
      → hit_count x (search_index tick.bleve index seed limit matched)
        ≤ (if same x seed.id || has x matched then 0 else 1)
  unfolding search_index hit_count
  search_index-hit_count index seed limit matched x once =
      elim (Option-cases (tick.bleve.search index (query_of seed.query) limit true)) [
        | inl n ↦ ground (arith, n)
        | inr (hits, n) ↦ ground (
          arith,
          n,
          once index (query_of seed.query) limit true hits n x,
          open_hits-hit_count seed.id matched hits x,
        )
      ]

  others_occur :
      (index : I) (matched : KeySet String) (by_id : Dict String Ticket) (seed : Ticket)
      (x : String)
      → IsOnceHit
      → ((x : String) (t : Ticket) → lookup x by_id ≡ some t → t.id ≡ x)
      → has seed.id matched ≡ false
      → occurs x (
            seed
            ∷ (gather tick index matched by_id seed
                (search_index tick.bleve index seed (size by_id) matched)
                (no_picks seed)).picked)
          + bit (has x matched)
        ≤ 1
  unfolding no_picks occurs
  others_occur index matched by_id seed x once own fresh =
      let hits = search_index tick.bleve index seed (size by_id) matched in
      ground (
        arith,
        fresh,
        gather-occurs index matched by_id seed hits (no_picks seed) x own,
        search_index-hit_count index seed (size by_id) matched x once,
      )

  candidates_of-occurs :
      (index : I) (matched : KeySet String) (by_id : Dict String Ticket) (seed : Ticket)
      (group : List Ticket) (x : String)
      → IsOnceHit
      → ((x : String) (t : Ticket) → lookup x by_id ≡ some t → t.id ≡ x)
      → has seed.id matched ≡ false
      → candidates_of tick index matched by_id seed ≡ some group
      → occurs x group + bit (has x matched) ≤ 1
  unfolding candidates_of
  candidates_of-occurs index matched by_id seed group x once own fresh e =
      let hits = search_index tick.bleve index seed (size by_id) matched in
      let others = (gather tick index matched by_id seed hits (no_picks seed)).picked in
      elim (Option-cases (remainder (group_size (seed ∷ others)) seed.count_multiple)) [
        | inl n ↦ ground (arith, n, e)
        | inr (rem, n) ↦ ground (
          arith,
          n,
          e,
          others_occur index matched by_id seed x once own fresh,
          trim_to_multiple-occurs seed others seed.count_multiple seed.min_count x,
        )
      ]

  match_seeds-apart :
      (index : I) (by_id : Dict String Ticket) (seeds : List Ticket) (matched : KeySet String)
      → IsOnceHit
      → ((x : String) (t : Ticket) → lookup x by_id ≡ some t → t.id ≡ x)
      → All IsCounted seeds
      → Returns
          (λ gs. (x : String) → occurs_in_all x gs + bit (has x matched) ≤ 1)
          (match_seeds tick index by_id seeds matched)
  unfolding match_seeds occurs_in_all
  match_seeds-apart index by_id [] matched once own c = λ x. ground arith
  match_seeds-apart index by_id (seed ∷ rest) matched once own (c, cs) =
      let P : KeySet String → List (List Ticket) → Type 0 =
        λ m gs. (x : String) → occurs_in_all x gs + bit (has x m) ≤ 1 in
      let skipped = match_seeds-apart index by_id rest matched once own cs in
      if_ind (Returns (P matched)) (has seed.id matched) (λ used. skipped)
        (λ fresh. elim (Option-cases (candidates_of tick index matched by_id seed)) [
          | inl e ↦ elim (candidates_of_returns tick index matched by_id seed c.1 e) [ ]
          | inr (group, e) ↦ rw e (
              if_ind (Returns (P matched)) (can_match tick seed group && group_satisfies_all group)
                (λ ok.
                  Returns-map (P (mark group matched)) (P matched) (λ gs. group ∷ gs)
                    (λ gs h x. ground (
                      arith,
                      h x,
                      mark-has group matched x,
                      candidates_of-occurs index matched by_id seed group x once own fresh e,
                    ))
                    _ (match_seeds-apart index by_id rest (mark group matched) once own cs))
                (λ no. skipped))
        ])

  match_default-apart_lem :
      (tickets : List Ticket)
      → IsOnceHit
      → All IsCounted tickets
      → Returns (λ gs. (x : String) → occurs_in_all x gs ≤ 1) (match_default tick tickets)
  unfolding match_default occurs_in_all occurs lookup
  match_default-apart_lem tickets once c =
      let P : List (List Ticket) → Type 0 = λ gs. (x : String) → occurs_in_all x gs ≤ 1 in
      let own = index_ids-own [] tickets (λ x t e. ground (arith, e)) in
      if_ind (Returns P)
        (ltb (length tickets) 2 && ltb_ℤ (party_count tickets) tick.queue.min_players)
        {y = elim (tick.bleve.new_index tickets) [
          | none ↦ some []
          | some index ↦ match_seeds tick index (index_ids [] tickets) tickets []
        ]}
        (λ few.
          few_tickets_ind P tick.config.max_intervals tickets c (λ x. ground arith)
            (λ t f x. ground arith))
        (λ many. elim (Option-cases (tick.bleve.new_index tickets)) [
          | inl e ↦ rw e (λ x. ground arith)
          | inr (index, e) ↦ rw e (
              Returns-weaken
                (λ gs. (x : String) → occurs_in_all x gs + bit (has {V = Unit {0}} x []) ≤ 1) P
                (λ gs h x. ground (arith, h x)) _
                (match_seeds-apart index (index_ids [] tickets) tickets [] once own c))
        ])

  -- If the hits of a search name no document twice, and the count and the count multiple of every
  -- ticket are positive, then the groups that `matchDefault` forms hold each ticket id at most once,
  -- in one group or over all of them.
  pub match_default-apart :
      (tickets : List Ticket)
      → IsOnceHit
      → All IsCounted tickets
      → (groups : List (List Ticket)) × (match_default tick tickets ≡ some groups)
        × ((x : String) → occurs_in_all x groups ≤ 1)
  match_default-apart tickets once c =
      Returns-elim (λ gs. (x : String) → occurs_in_all x gs ≤ 1) _
        (match_default-apart_lem tickets once c)
