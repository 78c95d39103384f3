-- ===== src/Leaderboard/Refusals.antt =====
-- internal/leaderboard/leaderboard.go: why `SubmitScore` refuses a submission.
use ultimate_game_server.Prelude.{
  String, ◌≡◌, inl, inr, Bool, true, false, ◌&&◌, ◌||◌, none, some, List, [], arith, ltb, leb,
  if◌then◌else◌, Bool-cases, Option-cases, length, same, ltb_ℤ, leb_ℤ, eqb_ℤ, sub_ℤ, ℤ, pos,
  join_text, byte_length, string_key,
}
use ultimate_game_server.Dict.{Dict, lookup, lookup-insert_self}
use mathlib.Core.Path.{subst}
use ultimate_game_server.Leaderboard.RankCache.{LeaderboardRecord, expiry_key}
use ultimate_game_server.Leaderboard.Deadlines.{calculate_expiry}
use ultimate_game_server.Leaderboard.Scores.{
  recent_hits, allow_hit, apply_operator, Board, RecordKey, ScoreState, Submission, ScoreError,
  err_negative, err_rate_limited, err_metadata_too_large, err_leaderboard_not_found,
  err_authoritative, err_no_records_possible, err_join_required, err_max_attempts_reached,
  err_invalid_operator, record_key,
}
use ultimate_game_server.Leaderboard.Submit.{operator_of, updated_row}

-- The limit of the rate is reached: ten submissions are counted.
abbrev pub Limited : Submission → Dict String (List ℤ) → Type 0
Limited x hits =
    (ts : List ℤ) × (lookup (join_text x.board_id (join_text ":" x.owner_id)) hits ≡ some ts)
    × (leb 10 (length ts) ≡ true)

-- The row of an owner on a board.
abbrev pub IsPlace : Submission → RecordKey → Type 0
IsPlace x k = (k.owner ≡ x.owner_id) × (k.place.leaderboard_id ≡ x.board_id)

-- Why a submission is refused.
unfoldable pub Refusal :
    Submission
    → ℤ
    → Dict String Board
    → Dict RecordKey LeaderboardRecord
    → Dict String (List ℤ)
    → ScoreError
    → Type 0
Refusal x now boards records hits err_negative =
    (ltb_ℤ x.score (pos 0) || ltb_ℤ x.subscore (pos 0)) ≡ true
Refusal x now boards records hits err_rate_limited = (x.by_player ≡ true) × Limited x hits
Refusal x now boards records hits err_metadata_too_large =
    ltb 2048 (byte_length (if same x.metadata "" then "{}" else x.metadata)) ≡ true
Refusal x now boards records hits err_leaderboard_not_found = lookup x.board_id boards ≡ none
Refusal x now boards records hits err_authoritative =
    (b : Board) × (lookup x.board_id boards ≡ some b) × ((x.by_player && b.authoritative) ≡ true)
Refusal x now boards records hits err_no_records_possible =
    (b : Board) × (expiry : ℤ) × (lookup x.board_id boards ≡ some b)
    × (calculate_expiry b.times (pos 0) now ≡ some (expiry, false))
Refusal x now boards records hits err_join_required =
    (b : Board) × (k : RecordKey) × (lookup x.board_id boards ≡ some b)
    × (b.join_required ≡ true)
    × IsPlace x k
    × (lookup k records ≡ none)
Refusal x now boards records hits err_max_attempts_reached =
    (b : Board) × (k : RecordKey) × (old : LeaderboardRecord) × (lookup x.board_id boards ≡ some b)
    × IsPlace x k
    × (lookup k records ≡ some old)
    × (leb_ℤ b.max_num_score old.num_score ≡ true)
Refusal x now boards records hits err_invalid_operator =
    (b : Board) × (lookup x.board_id boards ≡ some b)
    × ((leb_ℤ (pos 0) (operator_of x.override b.operator)
          && leb_ℤ (operator_of x.override b.operator) (pos 3))
        ≡ false)

no_operator :
    (op : ℤ) (d : Bool) (old new : ℤ × ℤ)
    → apply_operator op d old new ≡ none
    → (leb_ℤ (pos 0) op && leb_ℤ op (pos 3)) ≡ false
unfolding apply_operator
no_operator op d old new h = ground arith

pub updated-Refusal :
    (b : Board) (x : Submission) (metadata : String) (now : ℤ) (k : RecordKey)
    (old : LeaderboardRecord) (s : ScoreState) (e : ScoreError)
    → lookup x.board_id s.boards ≡ some b
    → IsPlace x k
    → lookup k s.records ≡ some old
    → updated_row b x metadata now old ≡ inl e
    → Refusal x now s.boards s.records s.hits e
unfolding updated_row Refusal
updated-Refusal b x metadata now k old s e a p q h =
    let why = Refusal x now s.boards s.records s.hits in
    let op = operator_of x.override b.operator in
    let d = eqb_ℤ b.sort_order (pos 1) in
    elim (Bool-cases (leb_ℤ b.max_num_score old.num_score)) [
      | inl w ↦
          let here : err_max_attempts_reached ≡ e = ground (arith, w) in
          subst why here (b, k, old, a, p, q, w)
      | inr w ↦
          elim (Option-cases
            (apply_operator op d (old.score, old.subscore) (x.score, x.subscore))) [
              | inl z ↦
                  let here : err_invalid_operator ≡ e = ground (arith, w, z) in
                  subst why here
                    (b, a, no_operator op d (old.score, old.subscore) (x.score, x.subscore) z)
              | inr (v, z) ↦ ground (arith, w, z)
            ]
    ]

pub hit-Limited :
    (x : Submission) (clock : ℤ) (hits : Dict String (List ℤ))
    → (allow_hit (join_text x.board_id (join_text ":" x.owner_id)) clock hits).1 ≡ false
    → Limited x (allow_hit (join_text x.board_id (join_text ":" x.owner_id)) clock hits).0
unfolding allow_hit
hit-Limited x clock hits h =
    let key = join_text x.board_id (join_text ":" x.owner_id) in
    let times : List ℤ = elim (lookup key hits) [ none ↦ [] | some ts ↦ ts ] in
    let kept = recent_hits (sub_ℤ clock (pos 60000000000)) times in
    elim (Bool-cases (leb 10 (length kept))) [
      | inl q ↦ rw q (kept, lookup-insert_self key kept hits, q)
      | inr q ↦ ground (arith, q)
    ]
