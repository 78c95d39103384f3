-- ===== src/Leaderboard/Calls.antt =====
-- Sequences of calls of the skip list of internal/leaderboard/admin.go, against the ranking.
use ultimate_game_server.Prelude.{
  ℕ, String, ◌≡◌, refl, ◌∙◌, Bool, true, false, Option, none, some, List, [], ◌∷◌, arith,
  if◌then◌else◌, ◌>>=◌, ℤ, string_key,
}
use ultimate_game_server.Leaderboard.Entry.{RankEntry}
use ultimate_game_server.Leaderboard.SkipList.{
  new_skip_list, delete_locked, insert_entry, get_rank, get_data_by_rank, SkipList,
}
use ultimate_game_server.Leaderboard.SkipListOk.{new_skip_list-IsSkip}
use ultimate_game_server.Leaderboard.Board.{rank_in, with_entry, without_entry, entry_at}
use ultimate_game_server.Leaderboard.Ranks.{get_data_by_rank_lem}
use ultimate_game_server.Leaderboard.Refinement.{
  Represents, Becomes, delete_locked-Represents, insert_entry-Represents, insert_entry_disabled,
  get_rank-Represents,
}
use mathlib.Core.Path.{subst}

pub data RankCall : Type 0 where
  insert_call : RankEntry → List Bool → RankCall
  delete_call : String → RankCall
  rank_call : String → RankCall
  at_call : ℤ → RankCall

pub data Answer : Type 0 where
  done : Answer
  ranked : ℕ → Answer
  found : Option RankEntry → Answer

unfoldable pub list_step : RankCall → SkipList → Option (SkipList × Answer)
list_step (insert_call e coins) s = do (s', r) ← insert_entry e coins s; some (s', ranked r)
list_step (delete_call o) s = do s' ← delete_locked o s; some (s', done)
list_step (rank_call o) s = do r ← get_rank o s; some (s, ranked r)
list_step (at_call r) s = do x ← get_data_by_rank r s; some (s, found x)

unfoldable pub list_run : List RankCall → SkipList → Option (List Answer)
list_run [] s = some []
list_run (c ∷ cs) s = do (s', a) ← list_step c s; rest ← list_run cs s'; some (a ∷ rest)

-- The same calls on the ranking; `on` says if ranks are enabled.
unfoldable pub board_step : Bool → Bool → RankCall → List RankEntry → List RankEntry × Answer
board_step asc on (insert_call e _) l =
    if on
    then (with_entry asc e l, ranked (rank_in e.owner_id (with_entry asc e l)))
    else (l, ranked 0)
board_step asc on (delete_call o) l = (without_entry asc o l, done)
board_step asc on (rank_call o) l = (l, ranked (if on then rank_in o l else 0))
board_step asc on (at_call r) l = (l, found (if on then entry_at r l else none))

unfoldable pub board_run : Bool → Bool → List RankCall → List RankEntry → List Answer
board_run asc on [] l = []
board_run asc on (c ∷ cs) l = let (l', a) = board_step asc on c l in a ∷ board_run asc on cs l'

-- One call: the list returns and goes on standing for the ranking.
abbrev Answers : RankCall → SkipList → Bool → List RankEntry → Type 0
Answers c s on l =
    (s' : SkipList) × (list_step c s ≡ some (s', (board_step s.sort_asc on c l).1))
    × Becomes s (board_step s.sort_asc on c l).0 s'

list_step_lem :
    (c : RankCall) (s : SkipList) (l : List RankEntry) (on : Bool)
    → s.enabled ≡ on
    → Represents s l
    → Answers c s on l
unfolding list_step board_step
list_step_lem (insert_call e coins) s l true q k =
    let (s', r, b) = insert_entry-Represents s l e coins k q in (s', rw r refl, b)
list_step_lem (insert_call e coins) s l false q k =
    (s, ground (arith, insert_entry_disabled e coins s q), (refl, refl, k))
list_step_lem (delete_call o) s l on q k =
    let (s', r, b) = delete_locked-Represents s l o k in (s', rw r refl, b)
list_step_lem (rank_call o) s l on q k =
    (s, ground (arith, get_rank-Represents s l o k), (refl, refl, k))
list_step_lem (at_call r) s l on q (ts, ok, e) =
    (s, ground (arith, get_data_by_rank_lem s ts r ok, e), (refl, refl, (ts, ok, e)))

list_run_from :
    (cs : List RankCall) (s : SkipList) (l : List RankEntry) (asc on : Bool)
    → s.sort_asc ≡ asc
    → s.enabled ≡ on
    → Represents s l
    → list_run cs s ≡ some (board_run asc on cs l)
unfolding list_run board_run
list_run_from [] s l asc on p q k = refl
list_run_from (c ∷ cs) s l asc on p q k =
    let (s', r, (p', q', k')) = list_step_lem c s l on q k in
    let l' = (board_step s.sort_asc on c l).0 in
    let ih = list_run_from cs s' l' s.sort_asc on p' (q' ∙ q) k' in
    subst (λ b. list_run (c ∷ cs) s ≡ some (board_run b on (c ∷ cs) l)) p (rw (r, ih) refl)

-- Whatever calls are made of a new skip list, and however the coins fall: no call reads a missing
-- node or runs out of rounds, and the answers are those of the sorted ranking.
pub list_run-board :
    (asc on : Bool) (cs : List RankCall)
    → list_run cs (new_skip_list asc on) ≡ some (board_run asc on cs [])
unfolding new_skip_list
list_run-board asc on cs =
    list_run_from cs (new_skip_list asc on) [] asc on refl refl
      ([], new_skip_list-IsSkip asc on, refl)
