-- ===== src/Leaderboard/Entry.antt =====
-- internal/leaderboard/rank_cache.go: a ranked entry; admin.go: the order of the ranks.
use ultimate_game_server.Prelude.{
  String, ◌≡◌, ◌≢◌, Bool, true, false, ◌||◌, arith, if◌then◌else◌, ltb_ℤ, ℤ, string_key,
}
use ultimate_game_server.Leaderboard.Text.{str_lt, str_lt_irrefl, str_lt_trans, str_lt_total}

pub record RankEntry : Type 0 where
  pub owner_id : String
  pub score : ℤ
  pub subscore : ℤ

-- `if a.Score != b.Score { … }` and what comes after it: the scores differ if one is smaller.
unfoldable pub by_key : Bool → ℤ → ℤ → Bool → Bool
by_key asc a b rest = if ltb_ℤ a b || ltb_ℤ b a then if asc then ltb_ℤ a b else ltb_ℤ b a else rest

unfoldable pub less : Bool → RankEntry → RankEntry → Bool
unfolding by_key
less asc a b =
    by_key asc a.score b.score (by_key asc a.subscore b.subscore (str_lt a.owner_id b.owner_id))

by_key_trans :
    (asc : Bool) (a b c : ℤ) (p q r : Bool)
    → (p ≡ true → q ≡ true → r ≡ true)
    → by_key asc a b p ≡ true
    → by_key asc b c q ≡ true
    → by_key asc a c r ≡ true
unfolding by_key
by_key_trans true a b c p q r f h k = ground arith
by_key_trans false a b c p q r f h k = ground arith

by_key-total :
    (asc : Bool) (a b : ℤ) (p q : Bool)
    → (p ≡ false → q ≡ true)
    → by_key asc a b p ≡ false
    → by_key asc b a q ≡ true
unfolding by_key
by_key-total true a b p q f h = ground arith
by_key-total false a b p q f h = ground arith

module _ (asc : Bool) where
  pub less_irrefl : (a : RankEntry) → less asc a a ≡ false
  unfolding less
  less_irrefl a = ground (arith, str_lt_irrefl a.owner_id)

  pub less_trans :
      (a b c : RankEntry) → less asc a b ≡ true → less asc b c ≡ true → less asc a c ≡ true
  unfolding less
  less_trans a b c = by_key_trans asc a.score b.score c.score _ _ _ (
      by_key_trans asc a.subscore b.subscore c.subscore _ _ _
        (str_lt_trans a.owner_id b.owner_id c.owner_id))

  pub less_total :
      (a b : RankEntry) → a.owner_id ≢ b.owner_id → less asc a b ≡ false → less asc b a ≡ true
  unfolding less
  less_total a b n = by_key-total asc a.score b.score _ _ (
      by_key-total asc a.subscore b.subscore _ _
        λ h. ground (arith, str_lt_total a.owner_id b.owner_id))
