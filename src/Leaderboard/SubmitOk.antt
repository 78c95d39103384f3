-- ===== src/Leaderboard/SubmitOk.antt =====
-- internal/leaderboard/leaderboard.go: what `SubmitScore` leaves behind, whichever way it ends.
use ultimate_game_server.Prelude.{
  ℕ, String, ◌≡◌, refl, sym, ap, ◌∙◌, ◌⊎◌, inl, inr, Bool, true, false, not, ◌&&◌, ◌||◌, Option,
  none, some, List, arith, ltb, if◌then◌else◌, sum-cases, Option-cases, if_ind, same, ltb_ℤ, leb_ℤ,
  eqb_ℤ, add_ℤ, ℤ, pos, join_text, byte_length, string_key,
}
use ultimate_game_server.Dict.{Dict, lookup, lookup-insert_self, Every, Every-lookup}
use ultimate_game_server.Leaderboard.RankCache.{
  key_of, entry_of_record, rank_of, Blacklist, LeaderboardRecord, expiry_key,
}
use ultimate_game_server.Leaderboard.RankCacheOk.{CacheOk, insert_score-rank_of}
use ultimate_game_server.Leaderboard.Deadlines.{is_tournament, calculate_expiry, Schedule}
use ultimate_game_server.Leaderboard.DeadlinesOk.{FewTimes, calculate_expiry-none}
use ultimate_game_server.Leaderboard.Scores.{
  allow_hit, apply_operator, Board, RecordKey, ScoreState, Submission, ScoreError, err_negative,
  err_rate_limited, err_metadata_too_large, err_leaderboard_not_found, err_authoritative,
  err_no_records_possible, err_join_required, record_key,
}
use ultimate_game_server.Leaderboard.Submit.{
  operator_of, updated_row, new_row, stored_row, store_row, submit_at, submit_checked, submit_score,
  Submitted, refused, stored,
}
use ultimate_game_server.Leaderboard.Refusals.{Limited, Refusal, updated-Refusal, hit-Limited}
use mathlib.Core.Path.{subst}

-- The scores of a row: those of the operator, within the number of attempts, for an owner who has a
-- row, and those of the submission for one who need not have joined.
unfoldable pub Scored : Submission → Board → Option LeaderboardRecord → LeaderboardRecord → Type 0
Scored x b none row =
    (b.join_required ≡ false)
    × (row.score ≡ x.score)
    × (row.subscore ≡ x.subscore)
    × (row.num_score ≡ pos 1)
Scored x b (some old) row =
    (leb_ℤ b.max_num_score old.num_score ≡ false)
    × (apply_operator (operator_of x.override b.operator) (eqb_ℤ b.sort_order (pos 1))
          (old.score, old.subscore) (x.score, x.subscore)
        ≡ some (row.score, row.subscore))
    × (row.num_score ≡ add_ℤ old.num_score (pos 1))

-- The board of a submission that is not refused.
abbrev pub Admits : Submission → ScoreState → Board → Type 0
Admits x s b = (lookup x.board_id s.boards ≡ some b) × ((x.by_player && b.authoritative) ≡ false)

-- The result of a submission: a refusal that changes nothing but the rate limit, or a record that
-- is stored and ranked.
unfoldable pub Settled : Blacklist → Submission → ℤ → ScoreState → Submitted → ScoreState → Type 0
Settled black x now s (refused e) s' =
    (hits : Dict String (List ℤ)) × (s' ≡ record s { hits = hits })
    × Refusal x now s.boards s.records hits e
Settled black x now s (stored r) s' =
    (k : RecordKey) × (row : LeaderboardRecord) × ((b : Board) × Admits x s b
      × Scored x b (lookup k s.records) row)
    × (k.owner ≡ x.owner_id)
    × (k.place.leaderboard_id ≡ x.board_id)
    × (lookup k s'.records ≡ some row)
    × (row.score ≡ r.score)
    × (row.subscore ≡ r.subscore)
    × CacheOk s'.cache
    × ((n : ℕ) × (r.rank ≡ pos n) × (rank_of black k.place x.owner_id s'.cache ≡ some n))

-- The submission runs into the panic of the deadlines: the board is a tournament whose reset
-- schedule fires at most once after its start.
abbrev pub Panics : Submission → ScoreState → Type 0
Panics x s =
    (b : Board) × (sched : Schedule) × Admits x s b
    × (is_tournament b.times ≡ true)
    × (b.times.schedule ≡ some sched)
    × FewTimes sched b.times.start_time

abbrev Settles : Blacklist → Submission → ℤ → ScoreState → Option (Submitted × ScoreState) → Type 0
Settles black x now s result =
    ((result ≡ none) × Panics x s)
    ⊎ ((o : Submitted) × (s' : ScoreState) × (result ≡ some (o, s')) × Settled black x now s o s')

store_row-Settles :
    (black : Blacklist) (coins : List Bool) (b : Board) (x : Submission) (k : RecordKey)
    (old : Option LeaderboardRecord) (row : LeaderboardRecord) (now : ℤ) (s : ScoreState)
    → CacheOk s.cache
    → k.owner ≡ x.owner_id
    → k.place.leaderboard_id ≡ x.board_id
    → row.owner_id ≡ x.owner_id
    → Admits x s b
    → Scored x b (lookup k s.records) row
    → Settles black x now s (store_row black coins b x k old row now s)
unfolding store_row stored_row Settled
store_row-Settles black coins b x k old row now s ok p q w a c =
    let (cache, rank, run, ok', r) =
      insert_score-rank_of black k.place b.sort_order (entry_of_record row) b.enable_ranks coins
        s.cache ok in
    let result = stored_row b x k old row now s cache rank in
    inr (
      result.0,
      result.1,
      rw run refl,
      (
        k,
        row,
        (b, a, c),
        p,
        q,
        lookup-insert_self k row s.records,
        refl,
        refl,
        ok',
        (rank, refl, ap (λ o. rank_of black k.place o cache) (sym w) ∙ r),
      ),
    )

updated_lem :
    (b : Board) (x : Submission) (metadata : String) (now : ℤ) (old row : LeaderboardRecord)
    → updated_row b x metadata now old ≡ inr row
    → (row.owner_id ≡ old.owner_id) × Scored x b (some old) row
unfolding updated_row Scored
updated_lem b x metadata now old row h =
    let o =
      apply_operator (operator_of x.override b.operator) (eqb_ℤ b.sort_order (pos 1))
        (old.score, old.subscore) (x.score, x.subscore) in
    elim (Option-cases o) [ inl q ↦ ground (arith, q) | inr (p, q) ↦ ground (arith, q) ]

-- Rows are stored under their owner.
abbrev pub RowsOk : Dict RecordKey LeaderboardRecord → Type 0
RowsOk m = Every (λ k r. r.owner_id ≡ k.owner) m

-- A refusal leaves the state.
refused-Settles :
    (black : Blacklist) (x : Submission) (now : ℤ) (s : ScoreState) (e : ScoreError)
    → Refusal x now s.boards s.records s.hits e
    → Settles black x now s (some (refused e, s))
unfolding Settled
refused-Settles black x now s e f = inr (refused e, s, refl, (s.hits, refl, f))

module _ (black : Blacklist) (coins : List Bool) (b : Board) (x : Submission) (metadata : String)
    (now expiry : ℤ) (s : ScoreState) (ok : CacheOk s.cache) (rows : RowsOk s.records)
    (a : Admits x s b) where
  abbrev k : RecordKey
  k = record { owner = x.owner_id; place = key_of x.board_id expiry }

  first_submit :
      lookup k s.records ≡ none
      → Settles black x now s (
          if b.join_required
          then some (refused err_join_required, s)
          else store_row black coins b x k none (new_row b x metadata now expiry) now s)
  unfolding Scored Refusal
  first_submit e =
      if_ind (Settles black x now s) b.join_required
        (λ q. refused-Settles black x now s err_join_required (b, k, a.0, q, (refl, refl), e))
        λ q.
          store_row-Settles black coins b x k none (new_row b x metadata now expiry) now s ok refl
            refl refl a
            (subst (λ o. Scored x b o (new_row b x metadata now expiry)) (sym e)
              (q, refl, refl, refl))

  next_submit :
      (old : LeaderboardRecord)
      → lookup k s.records ≡ some old
      → Settles black x now s (elim (updated_row b x metadata now old) [
        | inl e ↦ some (refused e, s)
        | inr row ↦ store_row black coins b x k (some old) row now s
      ])
  next_submit old q = elim (sum-cases (updated_row b x metadata now old)) [
    | inl (e, r) ↦ rw r (
        refused-Settles black x now s e
          (updated-Refusal b x metadata now k old s e a.0 (refl, refl) q r))
    | inr (row, r) ↦
        let (w, c) = updated_lem b x metadata now old row r in
        rw r (
          store_row-Settles black coins b x k (some old) row now s ok refl refl
            (w ∙ Every-lookup (λ j y. y.owner_id ≡ j.owner) k old s.records q rows) a
            (subst (λ o. Scored x b o row) (sym q) c))
  ]

  submit_at-Settles : Settles black x now s (submit_at black coins b x metadata now expiry s)
  unfolding submit_at
  submit_at-Settles = elim (Option-cases (lookup k s.records)) [
    | inl q ↦ rw (q, submit_at) (first_submit q)
    | inr (old, q) ↦ rw (q, submit_at) (next_submit old q)
  ]

module _ (black : Blacklist) (coins : List Bool) (x : Submission) where
  on_board-Settles :
      (b : Board) (metadata : String) (now : ℤ) (s : ScoreState)
      → CacheOk s.cache
      → RowsOk s.records
      → Admits x s b
      → Settles black x now s (elim (calculate_expiry b.times (pos 0) now) [
        | none ↦ none
        | some (expiry, possible) ↦
            if possible
            then submit_at black coins b x metadata now expiry s
            else some (refused err_no_records_possible, s)
      ])
  unfolding Refusal
  on_board-Settles b metadata now s ok rows a =
      elim (Option-cases (calculate_expiry b.times (pos 0) now)) [
        | inl w ↦
            let (y, (sched, z, few)) = calculate_expiry-none b.times now w in
            rw w (inl (refl, (b, sched, a, y, z, few)))
        | inr ((expiry, possible), w) ↦ rw w (
            if_ind (Settles black x now s) possible
              (λ y. submit_at-Settles black coins b x metadata now expiry s ok rows a)
              λ y.
                refused-Settles black x now s err_no_records_possible
                  (b, expiry, a.0, w ∙ rw y refl))
      ]

  find_board-Settles :
      (o : Option Board) (metadata : String) (now : ℤ) (s : ScoreState)
      → CacheOk s.cache
      → RowsOk s.records
      → lookup x.board_id s.boards ≡ o
      → Settles black x now s (elim o [
        | none ↦ some (refused err_leaderboard_not_found, s)
        | some b ↦
            if x.by_player && b.authoritative
            then some (refused err_authoritative, s)
            else elim (calculate_expiry b.times (pos 0) now) [
              | none ↦ none
              | some (expiry, possible) ↦
                  if possible
                  then submit_at black coins b x metadata now expiry s
                  else some (refused err_no_records_possible, s)
            ]
      ])
  unfolding Refusal
  find_board-Settles none metadata now s ok rows r =
      refused-Settles black x now s err_leaderboard_not_found r
  find_board-Settles (some b) metadata now s ok rows r =
      if_ind (Settles black x now s) (x.by_player && b.authoritative)
        (λ p. refused-Settles black x now s err_authoritative (b, r, p))
        λ p. on_board-Settles b metadata now s ok rows (r, p)

  submit_checked-Settles :
      (now : ℤ) (s : ScoreState)
      → CacheOk s.cache
      → RowsOk s.records
      → Settles black x now s (submit_checked black coins x now s)
  unfolding submit_checked Refusal
  submit_checked-Settles now s ok rows =
      let metadata = if same x.metadata "" then "{}" else x.metadata in
      if_ind (Settles black x now s) (ltb 2048 (byte_length metadata))
        (λ q. refused-Settles black x now s err_metadata_too_large q)
        λ q. find_board-Settles (lookup x.board_id s.boards) metadata now s ok rows refl

  -- The hits of the rate limit are outside what a refusal keeps.
  with_hits :
      (now : ℤ) (hits : Dict String (List ℤ)) (s s' : ScoreState) (o : Submitted)
      → Settled black x now (record s { hits = hits }) o s'
      → Settled black x now s o s'
  unfolding Settled
  with_hits now hits s s' (refused e) d = d
  with_hits now hits s s' (stored r) d = d

  abbrev hit_state : ScoreState → Dict String (List ℤ) → Bool → ScoreState
  hit_state s hits by = if by then record s { hits = hits } else s

  hit_lem :
      (s : ScoreState) (hits : Dict String (List ℤ)) (by : Bool) (now : ℤ) (allowed : Bool)
      → x.by_player ≡ by
      → (allowed ≡ false → Limited x hits)
      → CacheOk s.cache
      → RowsOk s.records
      → Settles black x now s (
          if by && not allowed
          then some (refused err_rate_limited, hit_state s hits by)
          else submit_checked black coins x now (hit_state s hits by))
  unfolding Settled Refusal
  hit_lem s hits true now true p l ok rows =
      elim (submit_checked-Settles now (record s { hits = hits }) ok rows) [
        | inl y ↦ inl y
        | inr (o, s', r, d) ↦ inr (o, s', r, with_hits now hits s s' o d)
      ]
  hit_lem s hits true now false p l ok rows =
      let s1 : ScoreState = record s { hits = hits } in
      inr (refused err_rate_limited, s1, refl, (hits, refl, (p, l refl)))
  hit_lem s hits false now allowed p l ok rows = submit_checked-Settles now s ok rows

  -- In a state where the cache of ranks is well formed and each row stands under its owner, a
  -- submission panics only if the board is a tournament whose reset schedule fires at most once after
  -- its start. Otherwise `SubmitScore` comes to an end: with a refusal that changes nothing but the
  -- hits of the rate limit and whose error names what is so (a negative score, ten hits counted, a
  -- long text, no board, an authoritative board, no time left, no row to join with, no attempt left,
  -- no such operator), or with a record whose scores are the stored row's and whose rank is the
  -- one that `GetRank` gives afterwards. The board is there then and not authoritative for a player,
  -- and the stored row has the scores that the operator makes of the row before, within the number
  -- of attempts, or for an owner without a row, whom the board need not have let join, the scores of
  -- the submission.
  pub submit_score-Settled :
      (clock now : ℤ) (s : ScoreState)
      → CacheOk s.cache
      → RowsOk s.records
      → ((submit_score black coins x clock now s ≡ none) × Panics x s)
        ⊎ ((o : Submitted) × (s' : ScoreState) × (submit_score black coins x clock now s
              ≡ some (o, s'))
            × Settled black x now s o s')
  unfolding submit_score Refusal
  submit_score-Settled clock now s ok rows =
      let (hits, allowed) =
        allow_hit (join_text x.board_id (join_text ":" x.owner_id)) clock s.hits in
      if_ind (Settles black x now s) (ltb_ℤ x.score (pos 0) || ltb_ℤ x.subscore (pos 0))
        (λ q. refused-Settles black x now s err_negative q)
        λ q. hit_lem s hits x.by_player now allowed refl (hit-Limited x clock s.hits) ok rows
