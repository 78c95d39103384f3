-- ===== src/Leaderboard/ScoresOk.antt =====
-- internal/leaderboard/leaderboard.go: what the score operators keep.
use ultimate_game_server.Prelude.{
  String, ◌≡◌, ◌⊎◌, Bool, true, false, not, arith, eqb_ℤ, ℤ, pos, negsuc, string_key,
}
use ultimate_game_server.Leaderboard.Text.{str_lt_irrefl}
use ultimate_game_server.Leaderboard.Entry.{by_key, less, RankEntry}
use ultimate_game_server.Leaderboard.RankCache.{expiry_key}
use ultimate_game_server.Leaderboard.Scores.{best_score, record_key}

abbrev pub scored : String → ℤ × ℤ → RankEntry
scored o p = record { owner_id = o; score = p.0; subscore = p.1 }

same_ℤ : (a b : ℤ) → eqb_ℤ a b ≡ true → a ≡ b
same_ℤ (pos m) (pos n) h = ground arith
same_ℤ (pos m) (negsuc n) h = ground arith
same_ℤ (negsuc m) (pos n) h = ground arith
same_ℤ (negsuc m) (negsuc n) h = ground arith

-- With the operator BEST the new scores are the old ones or the submitted ones, and in the order of
-- the leaderboard neither of the two is better than they are.
pub best_score_lem :
    (descending : Bool) (o : String) (old new : ℤ × ℤ)
    → ((best_score descending old new ≡ old) ⊎ (best_score descending old new ≡ new))
      × (less (not descending) (scored o old) (scored o (best_score descending old new)) ≡ false)
      × (less (not descending) (scored o new) (scored o (best_score descending old new)) ≡ false)
unfolding best_score less by_key
best_score_lem true o (a, b) (c, d) = ground (arith, str_lt_irrefl o, same_ℤ a c)
best_score_lem false o (a, b) (c, d) = ground (arith, str_lt_irrefl o, same_ℤ a c)
