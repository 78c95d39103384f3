-- ===== src/Tests/LeaderboardRuns.antt =====
-- Runs of the skip list of internal/leaderboard/admin.go.
use ultimate_game_server.Prelude.{
  ℕ, ◌+◌, ◌≤◌, String, ◌≡◌, refl, ◌∙◌, true, false, none, some, List, [], ◌∷◌, arith,
  String-discrete, pos, string_key,
}
use ultimate_game_server.Dict.{lookup, insert, delete}
use ultimate_game_server.Leaderboard.Entry.{by_key, less, RankEntry}
use ultimate_game_server.Leaderboard.Nodes.{load_entry, load_next, set_next, new_node}
use ultimate_game_server.Leaderboard.SkipList.{
  new_skip_list, random_level, walk, search_levels, find_update, raise, link, unlink, delete_locked,
  count_to, rank_of_locked, delete_old, add_entry, insert_entry, get_rank, advance,
  get_data_by_rank, SkipList,
}
use ultimate_game_server.Leaderboard.Ranking.{lower, upper, without}
use ultimate_game_server.Leaderboard.SkipListOk.{new_skip_list-IsSkip}
use ultimate_game_server.Leaderboard.Board.{
  rank_from, get_elem?, rank_in, with_entry, without_entry, entry_at, better_count,
}
use ultimate_game_server.Leaderboard.Refinement.{
  Represents, insert_entry-Represents, get_rank-Represents,
}
use ultimate_game_server.Leaderboard.Calls.{
  list_step, list_run, board_step, board_run, list_run-board, RankCall, insert_call, delete_call,
  rank_call, at_call, done, ranked, found,
}
use ultimate_game_server.Leaderboard.Places.{get_data_by_rank-get_rank, insert_entry-better_count}
use mathlib.Core.Path.{subst}

abbrev entry : String → ℕ → RankEntry
entry o n = record { owner_id = o; score = pos n; subscore = pos 0 }

list_program : Unit {0}
unfolding new_skip_list new_node load_entry load_next set_next random_level walk search_levels
    find_update raise link unlink delete_locked count_to rank_of_locked delete_old add_entry
    insert_entry get_rank advance get_data_by_rank less by_key lookup insert delete String-discrete
    list_step list_run board_step board_run with_entry without_entry entry_at rank_in rank_from
    lower upper without get_elem? better_count
list_program = tt

abbrev calls : List RankCall
calls =
    insert_call (entry "a" 10) (true ∷ [])
    ∷ insert_call (entry "b" 30) (true ∷ true ∷ [])
    ∷ insert_call (entry "c" 20) []
    ∷ insert_call (entry "a" 25) (true ∷ [])
    ∷ rank_call "c"
    ∷ at_call (pos 2)
    ∷ delete_call "b"
    ∷ rank_call "a"
    ∷ at_call (pos 3)
    ∷ []

-- The scores are best when high.
answers_of_calls :
    list_run calls (new_skip_list false true)
    ≡ some (
        ranked 1
        ∷ ranked 1
        ∷ ranked 2
        ∷ ranked 2
        ∷ ranked 3
        ∷ found (some (entry "a" 25))
        ∷ done
        ∷ ranked 1
        ∷ found none
        ∷ [])
unfolding list_program
answers_of_calls = refl

list_run-board_example :
    list_run calls (new_skip_list false true) ≡ some (board_run false true calls [])
list_run-board_example = list_run-board false true calls

on : (new_skip_list false true).enabled ≡ true
unfolding new_skip_list
on = refl

order : (new_skip_list false true).sort_asc ≡ false
unfolding new_skip_list
order = refl

one_le_one : 1 ≤ 1
one_le_one = omega arith

-- Entries, as the operations leave them.
abbrev board_1 : List RankEntry
board_1 = with_entry false (entry "a" 10) []

abbrev new_list : SkipList
new_list = new_skip_list false true

new_list-Represents : Represents new_list []
unfolding new_skip_list
new_list-Represents = ([], new_skip_list-IsSkip false true, refl)

-- The list with one entry.
one : (s : SkipList) × (s.enabled ≡ true) × (s.sort_asc ≡ false) × Represents s board_1
one =
    let (s, _, (p, q, k)) =
      insert_entry-Represents new_list [] (entry "a" 10) (true ∷ []) new_list-Represents on in
    (s, q ∙ on, p ∙ order, subst (λ b. Represents s (with_entry b (entry "a" 10) [])) order k)

insert_entry-better_count_example :
    (s' : SkipList) × (insert_entry (entry "b" 30) (true ∷ []) one.0
      ≡ some (
        s',
        1 + better_count one.0.sort_asc (entry "b" 30) (without_entry one.0.sort_asc "b" board_1),
      ))
insert_entry-better_count_example =
    insert_entry-better_count one.0 board_1 (entry "b" 30) (true ∷ []) one.3 one.1

first_rank : get_rank "a" one.0 ≡ some 1
unfolding list_program
first_rank = get_rank-Represents one.0 board_1 "a" one.3 ∙ rw (one.1) refl

get_data_by_rank-get_rank_example :
    (e : RankEntry) × (get_data_by_rank (pos 1) one.0 ≡ some (some e)) × (e.owner_id ≡ "a")
get_data_by_rank-get_rank_example =
    get_data_by_rank-get_rank one.0 board_1 "a" 1 one.3 first_rank one_le_one
