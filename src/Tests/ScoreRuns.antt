-- ===== src/Tests/ScoreRuns.antt =====
-- Runs of internal/leaderboard/deadlines.go and of `SubmitScore`.
use ultimate_game_server.Prelude.{
  ℕ, zero, suc, ◌-◌, ◌^◌, ◌≡◌, refl, ◌⊎◌, inl, inr, true, false, none, some, List, [], ◌∷◌, arith,
  if◌then◌else◌, if_ind, All, String-discrete, ◌≤ℤ◌, ◌<ℤ◌, ltb_ℤ, wrap_int64, ℤ, pos, negsuc,
  string_key,
}
use ultimate_game_server.Dict.{lookup}
use ultimate_game_server.Presence.Stream.{ℤ-discrete, stream_key}
use ultimate_game_server.Leaderboard.SkipList.{new_skip_list}
use ultimate_game_server.Leaderboard.RankCache.{
  LeaderboardExpiryKey-discrete, RankCache, key_of, drop_where, trim_expired, RankPartition,
  expiry_key,
}
use ultimate_game_server.Leaderboard.Deadlines.{
  cap_end, first_start, first_two, next_occurrence, after_start, before_end, scheduled_deadlines,
  tournament_deadlines, is_tournament, end_unix, current_expiry, calculate_expiry, Schedule,
  Deadlines, BoardTimes,
}
use ultimate_game_server.Leaderboard.DeadlinesOk.{
  zero_unix, FewTimes, scheduled_deadlines-bounds, trim_expired-calculate_expiry, IsCron,
}
use ultimate_game_server.Leaderboard.Scores.{
  best_score, apply_operator, Board, ScoreState, Submission, record_key,
}
use ultimate_game_server.Leaderboard.Submit.{submit_score, Submitted}
use ultimate_game_server.Leaderboard.SubmitOk.{Settled, Panics, submit_score-Settled}
use ultimate_game_server.Leaderboard.Entry.{less}
use ultimate_game_server.Leaderboard.ScoresOk.{scored, best_score_lem}
use mathlib.Core.Path.{subst}
use native.Mathlib.Decide.{ℕ_discrete}

unfoldable later_than : ℤ → List ℤ → List ℤ
later_than t [] = []
later_than t (u ∷ us) = let rest = later_than t us in if ltb_ℤ t u then u ∷ rest else rest

unfoldable first_of : List ℤ → ℤ
first_of [] = zero_unix
first_of (u ∷ us) = u

unfoldable last_before : ℤ → List ℤ → ℤ → ℤ
last_before t [] a = a
last_before t (u ∷ us) a = last_before t us (if ltb_ℤ u t then u else a)

unfoldable at_most : ℕ → List ℤ → List ℤ
at_most zero us = []
at_most (suc n) [] = []
at_most (suc n) (u ∷ us) = u ∷ at_most n us

later_than-All : (t : ℤ) (us : List ℤ) → All (λ u. t <ℤ u) (later_than t us)
unfolding later_than
later_than-All t [] = tt
later_than-All t (u ∷ us) =
    if_ind (λ vs. All (λ v. t <ℤ v) vs) (ltb_ℤ t u) (λ q. (ground arith, later_than-All t us))
      λ q. later_than-All t us

at_most-All : (P : ℤ → Type 0) (n : ℕ) (us : List ℤ) → All P us → All P (at_most n us)
unfolding at_most
at_most-All P zero us h = tt
at_most-All P (suc n) [] h = tt
at_most-All P (suc n) (u ∷ us) h = (h.0, at_most-All P n us h.1)

first_of-later :
    (t : ℤ) (us : List ℤ) → All (λ u. t <ℤ u) us → (first_of us ≡ zero_unix) ⊎ (t <ℤ first_of us)
unfolding first_of
first_of-later t [] h = inl refl
first_of-later t (u ∷ us) h = inr h.0

-- Fires at some given times and never after them, as an expression that names its years does.
abbrev at_times : List ℤ → Schedule
at_times us = record {
  next = λ t. first_of (later_than t us);
  last = λ t. last_before t us zero_unix;
  next_n = λ t n. at_most n (later_than t us);
}

at_times-IsCron : (us : List ℤ) → IsCron (at_times us)
at_times-IsCron us = record {
  next_after = λ t. first_of-later t (later_than t us) (later_than-All t us);
  all_after = λ t n. at_most-All (λ u. t <ℤ u) n (later_than t us) (later_than-All t us);
}

abbrev hundreds : Schedule
hundreds = at_times (pos 100 ∷ pos 200 ∷ pos 300 ∷ pos 420 ∷ [])

scheduled_deadlines-bounds_example :
    ((scheduled_deadlines hundreds (pos 50) (pos 1000) (pos 30) (pos 320) ≡ none)
      × FewTimes hundreds (pos 50))
    ⊎ ((d : Deadlines) × (scheduled_deadlines hundreds (pos 50) (pos 1000) (pos 30) (pos 320)
          ≡ some d)
        × (d.end_active ≤ℤ d.expiry)
        × (pos 0 <ℤ pos 1000 → d.expiry ≤ℤ pos 1000)
        × (pos 50 ≤ℤ d.start_active))
scheduled_deadlines-bounds_example =
    scheduled_deadlines-bounds hundreds (pos 50) (pos 1000) (pos 30) (pos 320)
      (at_times-IsCron (pos 100 ∷ pos 200 ∷ pos 300 ∷ pos 420 ∷ []))

abbrev weekly : BoardTimes
weekly = record {
  duration = pos 30;
  start_time = pos 50;
  end_time = none;
  schedule = some hundreds;
}

weekly-IsCron : (sched : Schedule) → weekly.schedule ≡ some sched → IsCron sched
weekly-IsCron sched e =
    subst IsCron (ground arith) (at_times-IsCron (pos 100 ∷ pos 200 ∷ pos 300 ∷ pos 420 ∷ []))

score_program : Unit {0}
unfolding later_than first_of last_before at_most first_two next_occurrence current_expiry
    calculate_expiry tournament_deadlines is_tournament end_unix scheduled_deadlines cap_end
    first_start after_start before_end trim_expired drop_where lookup ℤ-discrete
    LeaderboardExpiryKey-discrete String-discrete ℕ_discrete
score_program = tt

weekly_expiry : calculate_expiry weekly (pos 0) (pos 320) ≡ some (pos 420, true)
unfolding score_program
weekly_expiry = refl

-- A schedule that fires only once after the start: the code asks for two times and panics.
one_time_left :
    scheduled_deadlines (at_times (pos 100 ∷ [])) (pos 50) (pos 0) (pos 30) (pos 20) ≡ none
unfolding score_program
one_time_left = refl

abbrev partition : RankPartition
partition = record { sort_asc = true; enabled = true; sl = new_skip_list true true }

abbrev cached : RankCache
cached = (key_of "w" (pos 420), partition) ∷ (key_of "w" (pos 320), partition) ∷ []

trim_expired-calculate_expiry_example :
    lookup (key_of "w" (pos 420)) (trim_expired (pos 320) cached)
    ≡ lookup (key_of "w" (pos 420)) cached
trim_expired-calculate_expiry_example =
    trim_expired-calculate_expiry weekly (pos 320) (pos 420) "w" cached weekly-IsCron weekly_expiry

abbrev board : Board
board = record {
  authoritative = false;
  sort_order = pos 1;
  operator = pos 0;
  max_num_score = pos 3;
  times = weekly;
  join_required = false;
  enable_ranks = true;
  size = 0;
}

abbrev scores : ScoreState
scores = record {
  boards = ("w", board) ∷ [];
  records = [];
  audits = [];
  cache = [];
  lists = [];
  hits = [];
}

abbrev submission : Submission
submission = record {
  board_id = "w";
  owner_id = "ann";
  username = "Ann";
  score = pos 12;
  subscore = pos 3;
  metadata = "";
  by_player = true;
  override = negsuc 0;
}

submit_score-Settled_example :
    ((submit_score (record { ids = []; everything = false }) [] submission (pos 0) (pos 320) scores
        ≡ none)
      × Panics submission scores)
    ⊎ ((o : Submitted) × (s' : ScoreState) × (submit_score
            (record { ids = []; everything = false })
            []
            submission
            (pos 0)
            (pos 320)
            scores
          ≡ some (o, s'))
        × Settled (record { ids = []; everything = false }) submission (pos 320) scores o s')
submit_score-Settled_example =
    submit_score-Settled (record { ids = []; everything = false }) [] submission (pos 0) (pos 320)
      scores tt tt

-- The sum of two scores that no `int64` holds turns negative.
incremented_beyond :
    apply_operator (pos 2) true (pos (2 ^ 63 - 1), pos 0) (pos 1, pos 0)
    ≡ some (negsuc (2 ^ 63 - 1), pos 0)
unfolding apply_operator wrap_int64
incremented_beyond = refl

-- The score 5 with the subscore 3 is submitted over 5 with 1.
best_score_lem_example :
    ((best_score true (pos 5, pos 1) (pos 5, pos 3) ≡ (pos 5, pos 1))
      ⊎ (best_score true (pos 5, pos 1) (pos 5, pos 3) ≡ (pos 5, pos 3)))
    × (less false
          (scored "ann" (pos 5, pos 1))
          (scored "ann" (best_score true (pos 5, pos 1) (pos 5, pos 3)))
        ≡ false)
    × (less false
          (scored "ann" (pos 5, pos 3))
          (scored "ann" (best_score true (pos 5, pos 1) (pos 5, pos 3)))
        ≡ false)
best_score_lem_example = best_score_lem true "ann" (pos 5, pos 1) (pos 5, pos 3)
