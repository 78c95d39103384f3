-- ===== src/Leaderboard/Submit.antt =====
-- internal/leaderboard/leaderboard.go: the steps of `SubmitScore` in their order.
use ultimate_game_server.Prelude.{
  ℕ, suc, String, ◌⊎◌, inl, inr, Bool, not, ◌&&◌, ◌||◌, Option, none, some, List, [], ◌∷◌, ◌++◌,
  ltb, if◌then◌else◌, ◌>>=◌, same, ltb_ℤ, leb_ℤ, eqb_ℤ, add_ℤ, ℤ, pos, join_text, byte_length,
  string_key,
}
use ultimate_game_server.Dict.{Dict, lookup, insert, delete}
use ultimate_game_server.Leaderboard.RankCache.{
  RankCache, key_of, entry_of_record, insert_score, LeaderboardExpiryKey, Blacklist,
  LeaderboardRecord, expiry_key,
}
use ultimate_game_server.Leaderboard.Deadlines.{calculate_expiry}
use ultimate_game_server.Leaderboard.Scores.{
  allow_hit, apply_operator, Board, RecordKey, ScoreAudit, ScoreState, Submission, ScoreError,
  err_negative, err_rate_limited, err_metadata_too_large, err_leaderboard_not_found,
  err_authoritative, err_no_records_possible, err_join_required, err_max_attempts_reached,
  err_invalid_operator, record_key,
}

pub data Submitted : Type 0 where
  refused : ScoreError → Submitted
  stored : LeaderboardRecord → Submitted

-- `override >= 0 && override <= OperatorDecrement`
abbrev pub operator_of : ℤ → ℤ → ℤ
operator_of override operator =
    if leb_ℤ (pos 0) override && leb_ℤ override (pos 3) then override else operator

-- The number of records of a leaderboard and expiry.
unfoldable pub count_records : LeaderboardExpiryKey → Dict RecordKey LeaderboardRecord → ℕ
count_records place [] = 0
count_records place ((k, _) ∷ m) =
    let rest = count_records place m in if same k.place place then suc rest else rest

-- The row to write, or why there is none: a row of an owner who has one, and a new row.
unfoldable pub updated_row :
    Board → Submission → String → ℤ → LeaderboardRecord → ScoreError ⊎ LeaderboardRecord
unfolding apply_operator
updated_row b x metadata now old =
    if leb_ℤ b.max_num_score old.num_score
    then inl err_max_attempts_reached
    else elim (apply_operator (operator_of x.override b.operator) (eqb_ℤ b.sort_order (pos 1))
        (old.score, old.subscore) (x.score, x.subscore)) [
          | none ↦ inl err_invalid_operator
          | some (score, sub) ↦ inr (record old {
            score = score;
            subscore = sub;
            num_score = add_ℤ old.num_score (pos 1);
            metadata = metadata;
            update_time = now;
            username = x.username;
          })
        ]

abbrev pub new_row : Board → Submission → String → ℤ → ℤ → LeaderboardRecord
new_row b x metadata now expiry = record {
  leaderboard_id = x.board_id;
  owner_id = x.owner_id;
  username = x.username;
  score = x.score;
  subscore = x.subscore;
  num_score = pos 1;
  max_num_score = b.max_num_score;
  metadata = metadata;
  create_time = now;
  update_time = now;
  expiry_time = expiry;
  rank = pos 0;
}

-- The score and subscore of the audit's old side.
abbrev pub old_scores : Option LeaderboardRecord → ℤ × ℤ
old_scores none = (pos 0, pos 0)
old_scores (some r) = (r.score, r.subscore)

-- The state after the writes of the transaction, with the rank cache and the rank that come next;
-- the cached list of the partition goes.
unfoldable pub stored_row :
    Board
    → Submission
    → RecordKey
    → Option LeaderboardRecord
    → LeaderboardRecord
    → ℤ
    → ScoreState
    → RankCache
    → ℕ
    → Submitted × ScoreState
unfolding count_records
stored_row b x k old row now s cache rank =
    let records = insert k row s.records in
    let board = record b { size = count_records k.place records } in
    let audit : ScoreAudit = record {
      leaderboard_id = x.board_id;
      owner = x.owner_id;
      old_score = (old_scores old).0;
      new_score = row.score;
      old_subscore = (old_scores old).1;
      new_subscore = row.subscore;
      operator = operator_of x.override b.operator;
    } in
    (
      stored (record row {
        create_time = now;
        update_time = now;
        max_num_score = b.max_num_score;
        rank = pos rank;
      }),
      record s {
        boards = insert x.board_id board s.boards;
        records = records;
        audits = s.audits ++ audit ∷ [];
        cache = cache;
        lists = delete k.place s.lists;
      },
    )

unfoldable pub store_row :
    Blacklist
    → List Bool
    → Board
    → Submission
    → RecordKey
    → Option LeaderboardRecord
    → LeaderboardRecord
    → ℤ
    → ScoreState
    → Option (Submitted × ScoreState)
unfolding stored_row
store_row black coins b x k old row now s = do
  (cache, rank) ←
      insert_score black k.place b.sort_order (entry_of_record row) b.enable_ranks coins s.cache
  some (stored_row b x k old row now s cache rank)

-- What follows once the expiry is known.
unfoldable pub submit_at :
    Blacklist
    → List Bool
    → Board
    → Submission
    → String
    → ℤ
    → ℤ
    → ScoreState
    → Option (Submitted × ScoreState)
unfolding store_row updated_row
submit_at black coins b x metadata now expiry s =
    let k : RecordKey = record { owner = x.owner_id; place = key_of x.board_id expiry } in
    elim (lookup k s.records) [
      | none ↦
          if b.join_required
          then some (refused err_join_required, s)
          else store_row black coins b x k none (new_row b x metadata now expiry) now s
      | some old ↦ elim (updated_row b x metadata now old) [
        | inl e ↦ some (refused e, s)
        | inr row ↦ store_row black coins b x k (some old) row now s
      ]
    ]

-- What follows the rate limit.
unfoldable pub submit_checked :
    Blacklist → List Bool → Submission → ℤ → ScoreState → Option (Submitted × ScoreState)
unfolding submit_at
submit_checked black coins x now s =
    let metadata = if same x.metadata "" then "{}" else x.metadata in
    if ltb 2048 (byte_length metadata)
    then some (refused err_metadata_too_large, s)
    else elim (lookup x.board_id s.boards) [
      | none ↦ some (refused err_leaderboard_not_found, s)
      | some b ↦
          if x.by_player && b.authoritative
          then some (refused err_authoritative, s)
          else elim (calculate_expiry b.times (pos 0) now) [
            | none ↦ none
            | some (expiry, possible) ↦
                if possible
                then submit_at black coins b x metadata now expiry s
                else some (refused err_no_records_possible, s)
          ]
    ]

-- `SubmitScore`
unfoldable pub submit_score :
    Blacklist → List Bool → Submission → ℤ → ℤ → ScoreState → Option (Submitted × ScoreState)
unfolding submit_checked
submit_score black coins x clock now s =
    let (hits, allowed) =
      allow_hit (join_text x.board_id (join_text ":" x.owner_id)) clock s.hits in
    let s' = if x.by_player then record s { hits = hits } else s in
    if ltb_ℤ x.score (pos 0) || ltb_ℤ x.subscore (pos 0)
    then some (refused err_negative, s)
    else if x.by_player && not allowed
    then some (refused err_rate_limited, s')
    else submit_checked black coins x now s'
