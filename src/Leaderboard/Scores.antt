-- ===== src/Leaderboard/Scores.antt =====
-- internal/leaderboard/leaderboard.go: `SubmitScore`. The tables are maps, and a statement on them
-- does not fail. `now` is the time in seconds, `clock` in nanoseconds. `none` is a fault of a skip
-- list, or a panic of the deadlines.
use ultimate_game_server.Prelude.{
  ℕ, String, Bool, true, false, ◌&&◌, Option, none, some, List, [], ◌∷◌, ◌++◌, leb, if◌then◌else◌,
  length, String-discrete, Key, ltb_ℤ, eqb_ℤ, add_ℤ, sub_ℤ, wrap_int64, ℤ, pos, string_key,
}
use ultimate_game_server.Dict.{Dict, lookup, insert}
use ultimate_game_server.Leaderboard.RankCache.{
  LeaderboardExpiryKey-discrete, RankCache, LeaderboardExpiryKey, LeaderboardRecord, expiry_key,
}
use ultimate_game_server.Leaderboard.Deadlines.{BoardTimes}

-- The columns of `leaderboard` that `SubmitScore` reads, and `size`.
pub record Board : Type 0 where
  pub authoritative : Bool
  pub sort_order : ℤ
  pub operator : ℤ
  pub max_num_score : ℤ
  pub times : BoardTimes
  pub join_required : Bool
  pub enable_ranks : Bool
  pub size : ℕ

pub record RecordKey : Type 0 where
  pub owner : String
  pub place : LeaderboardExpiryKey

unfoldable pub RecordKey-discrete : Discrete RecordKey
RecordKey-discrete = hlevel (LeaderboardExpiryKey-discrete, String-discrete)

instance abbrev pub record_key : Key RecordKey
record_key = record { dec = RecordKey-discrete }

pub record ScoreAudit : Type 0 where
  pub leaderboard_id : String
  pub owner : String
  pub old_score : ℤ
  pub new_score : ℤ
  pub old_subscore : ℤ
  pub new_subscore : ℤ
  pub operator : ℤ

pub record ScoreState : Type 0 where
  pub boards : Dict String Board
  pub records : Dict RecordKey LeaderboardRecord
  pub audits : List ScoreAudit
  pub cache : RankCache
  pub lists : Dict LeaderboardExpiryKey (List LeaderboardRecord)
  pub hits : Dict String (List ℤ)

pub data ScoreError : Type 0 where
  err_negative : ScoreError
  err_rate_limited : ScoreError
  err_metadata_too_large : ScoreError
  err_leaderboard_not_found : ScoreError
  err_authoritative : ScoreError
  err_no_records_possible : ScoreError
  err_join_required : ScoreError
  err_max_attempts_reached : ScoreError
  err_invalid_operator : ScoreError

pub record Submission : Type 0 where
  pub board_id : String
  pub owner_id : String
  pub username : String
  pub score : ℤ
  pub subscore : ℤ
  pub metadata : String
  pub by_player : Bool
  -- -1 for none
  pub override : ℤ

unfoldable pub recent_hits : ℤ → List ℤ → List ℤ
recent_hits cutoff [] = []
recent_hits cutoff (t ∷ ts) =
    let rest = recent_hits cutoff ts in if ltb_ℤ cutoff t then t ∷ rest else rest

-- `allow`: ten submissions in a minute.
unfoldable pub allow_hit : String → ℤ → Dict String (List ℤ) → Dict String (List ℤ) × Bool
unfolding recent_hits
allow_hit key clock hits =
    let times : List ℤ = elim (lookup key hits) [ none ↦ [] | some ts ↦ ts ] in
    let kept = recent_hits (sub_ℤ clock (pos 60000000000)) times in
    if leb 10 (length kept)
    then (insert key kept hits, false)
    else (insert key (kept ++ clock ∷ []) hits, true)

-- `if newScore < 0 { newScore = 0 }`
abbrev pub at_least_0 : ℤ → ℤ
at_least_0 a = if ltb_ℤ a (pos 0) then pos 0 else a

abbrev pub beats : Bool → ℤ → ℤ → Bool
beats descending a b = if descending then ltb_ℤ b a else ltb_ℤ a b

-- Case `OperatorBest`.
unfoldable pub best_score : Bool → ℤ × ℤ → ℤ × ℤ → ℤ × ℤ
best_score descending (old, old_sub) (score, sub) =
    if beats descending old score
    then (old, old_sub)
    else if eqb_ℤ old score && beats descending old_sub sub
    then (score, old_sub)
    else (score, sub)

-- The `switch` on the operator; `none` is `ErrInvalidOperator`.
unfoldable pub apply_operator : ℤ → Bool → ℤ × ℤ → ℤ × ℤ → Option (ℤ × ℤ)
unfolding best_score
apply_operator op descending (old, old_sub) (score, sub) =
    if eqb_ℤ op (pos 0)
    then some (best_score descending (old, old_sub) (score, sub))
    else if eqb_ℤ op (pos 1)
    then some (score, sub)
    else if eqb_ℤ op (pos 2)
    then some (wrap_int64 (add_ℤ old score), wrap_int64 (add_ℤ old_sub sub))
    else if eqb_ℤ op (pos 3)
    then some
        (at_least_0 (wrap_int64 (sub_ℤ old score)), at_least_0 (wrap_int64 (sub_ℤ old_sub sub)))
    else none
