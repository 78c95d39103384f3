-- ===== src/Tests/TokenRuns.antt =====
-- Runs of internal/matchmaker: tokens and the selection of groups.
use ultimate_game_server.Prelude.{
  ℕ, ◌≤◌, ◌<◌, String, ◌≡◌, refl, false, List, [], ◌∷◌, length, All, String-discrete, pos,
  string_key,
}
use ultimate_game_server.Dict.{lookup, insert}
use ultimate_game_server.Matchmaker.Ticket.{Ticket}
use ultimate_game_server.Matchmaker.Groups.{mark}
use ultimate_game_server.Matchmaker.Occurrences.{occurs}
use ultimate_game_server.Matchmaker.Tokens.{
  add_seconds, mint_match_token, consume_match_token, mints, accepted, open_token, accepted_once,
  TokenCall, mint_call, consume_call,
}
use ultimate_game_server.Matchmaker.Selection.{
  is_unused, select_groups, groups_with, select_groups_lem,
}

abbrev ticket : String → ℕ → Ticket
ticket id n = record {
  id = id;
  user_id = id;
  username = id;
  skill_rating = pos 1000;
  region = "";
  created_at = 0;
  query = "*";
  min_count = pos 2;
  max_count = pos 4;
  count_multiple = pos 2;
  count = pos n;
  party_id = "";
  session_id = id;
  presences = [];
  intervals = pos 2;
  string_properties = [];
  numeric_properties = [];
  reverse_precision = false;
  queue_name = "default";
  status = "queued";
  match_id = "";
  match_token = "";
}

abbrev calls : List TokenCall
calls = mint_call 10 (pos 30) "k" "m" [] [] ∷ consume_call 20 "k" ∷ consume_call 21 "k" ∷ []

token_program : Unit {0}
unfolding String-discrete lookup insert add_seconds mint_match_token consume_match_token mints
    accepted open_token is_unused select_groups mark occurs groups_with
token_program = tt

one_accepted : accepted "k" calls [] ≡ 1
unfolding token_program
one_accepted = refl

accepted_once_example : accepted "k" calls [] ≤ mints "k" calls
accepted_once_example = accepted_once "k" calls

abbrev groups : List (List Ticket)
groups =
    (ticket "a" 1 ∷ ticket "b" 1 ∷ [])
    ∷ (ticket "b" 1 ∷ ticket "c" 1 ∷ [])
    ∷ []
    ∷ (ticket "c" 1 ∷ ticket "d" 1 ∷ [])
    ∷ []

two_selected : length (select_groups [] groups) ≡ 2
unfolding token_program
two_selected = refl

select_groups_lem_example :
    ((x : String) → groups_with x (select_groups [] groups) ≤ 1)
    × All (λ g. 0 < length g) (select_groups [] groups)
select_groups_lem_example = select_groups_lem groups
