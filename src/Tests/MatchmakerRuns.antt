-- ===== src/Tests/MatchmakerRuns.antt =====
-- Runs of internal/matchmaker.
use ultimate_game_server.Prelude.{
  ℕ, ◌≤◌, String, ◌≡◌, refl, ◌≢◌, ◌↔◌, true, false, some, List, [], ◌∷◌, arith, length, All,
  String-discrete, ◌≤ℤ◌, pos, string_key,
}
use ultimate_game_server.Dict.{lookup, insert, delete, keys}
use ultimate_game_server.Dict.Nested.{inner, related, relate, unrelate}
use ultimate_game_server.Matchmaker.Ticket.{Ticket, QueueConfig, MatchmakerConfig}
use ultimate_game_server.Matchmaker.Sizes.{
  players, group_size, party_count, remainder, off_multiple, out_of_range, satisfies_each,
  group_satisfies_all,
}
use ultimate_game_server.Matchmaker.Fair.{group_satisfies_all_iff, IsFair}
use ultimate_game_server.Matchmaker.Trim.{
  drop_fitting, drop_last, drop_one, trim_loop, trim_to_multiple,
}
use ultimate_game_server.Matchmaker.Pairing.{
  waited_less, get_skill_delta, distance, compatible_range, regions_agree, skills_agree, query_of,
  open_hits, search_index, query_matches, evaluate_pairing, Bleve,
}
use ultimate_game_server.Matchmaker.Groups.{
  last_interval, magnitude, single_group, few_tickets, index_ids, no_picks, rev_threshold_of, mark,
  rejected, consider, gather, candidates_of, can_match, match_seeds, match_default, Tick,
}
use ultimate_game_server.Matchmaker.Fairness.{IsCounted, match_default-IsFair}
use ultimate_game_server.Matchmaker.Occurrences.{hit_count}
use ultimate_game_server.Matchmaker.Disjoint.{occurs_in_all, IsOnceHit, match_default-apart}
use ultimate_game_server.Matchmaker.Prepare.{
  bare_queue, queue_config, name_ticket, count_ticket, own_presence, complete_ticket,
  prepare_ticket, counts_invalid,
}
use ultimate_game_server.Matchmaker.Pool.{
  new_pool, recent, times_of, check_rate_limit, admit_ticket, submit, drop_ticket, cancel,
  cancel_each, party_ticket_ids, remove_party_all, remove_session_all, Pool,
}
use ultimate_game_server.Matchmaker.PoolOk.{IsPoolOk}
use ultimate_game_server.Matchmaker.Removal.{remove_session_all_lem}
use ultimate_game_server.Matchmaker.PoolRuns.{perform, run, run-IsPoolOk, PoolCall, submit_call}
use ultimate_game_server.Matchmaker.RateLimit.{checks, latest, rate_limit_lem}

abbrev ticket : String → ℕ → Ticket
ticket id n = record {
  id = id;
  user_id = id;
  username = id;
  skill_rating = pos 1000;
  region = "";
  created_at = 0;
  query = "*";
  min_count = pos 2;
  max_count = pos 4;
  count_multiple = pos 2;
  count = pos n;
  party_id = "";
  session_id = id;
  presences = [];
  intervals = pos 2;
  string_properties = [];
  numeric_properties = [];
  reverse_precision = false;
  queue_name = "default";
  status = "queued";
  match_id = "";
  match_token = "";
}

abbrev queue : QueueConfig
queue = record {
  name = "default";
  min_players = pos 2;
  max_players = pos 8;
  count_multiple = pos 1;
  skill_match = record {
    enabled = false;
    initial_range = 50;
    max_range = 500;
    expansion_interval_sec = pos 5;
    expansion_step = 25;
  };
  region_match = record { strict = false; fallback_delay_sec = pos 15 };
  reverse_precision = record { enabled = false; reverse_threshold_ticks = pos 10 };
}

abbrev config : MatchmakerConfig
config = record {
  processing_interval_ms = pos 1000;
  ticket_expiry_sec = pos 300;
  max_tickets = pos 3;
  max_intervals = pos 2;
  token_ttl_sec = pos 30;
  rev_precision = false;
  use_redlock = false;
  rate_limit_max = pos 10;
  rate_limit_window_sec = pos 300;
  token_secret = "";
  queues = [];
}

-- An index whose every search finds the ticket b.
abbrev bleve : Bleve Unit
bleve = record { new_index = λ ts. some tt; search = λ i q n sorted. some ("b" ∷ []) }

abbrev tick : Tick Unit
tick = record { bleve = bleve; config = config; queue = queue; now = 1000 }

abbrev tickets : List Ticket
tickets = ticket "a" 2 ∷ ticket "b" 2 ∷ []

program : Unit {0}
unfolding String-discrete lookup insert delete players group_size party_count remainder off_multiple
    out_of_range satisfies_each group_satisfies_all drop_fitting drop_last drop_one trim_loop
    trim_to_multiple waited_less get_skill_delta distance compatible_range regions_agree
    skills_agree query_of open_hits search_index query_matches evaluate_pairing last_interval
    magnitude single_group few_tickets index_ids no_picks rev_threshold_of mark rejected consider
    gather candidates_of can_match match_seeds match_default
program = tt

matched : match_default tick tickets ≡ some (tickets ∷ [])
unfolding program
matched = refl

tickets-IsCounted : All IsCounted tickets
tickets-IsCounted = ground arith

b_once : IsOnceHit tick
unfolding hit_count
b_once i q n sorted hits e x = ground (arith, e)

match_default-IsFair_example :
    (groups : List (List Ticket)) × (match_default tick tickets ≡ some groups) × All IsFair groups
match_default-IsFair_example = match_default-IsFair tick tickets tickets-IsCounted

match_default-apart_example :
    (groups : List (List Ticket)) × (match_default tick tickets ≡ some groups)
    × ((x : String) → occurs_in_all x groups ≤ 1)
match_default-apart_example = match_default-apart tick tickets b_once tickets-IsCounted

group_satisfies_all_iff_example : (group_satisfies_all tickets ≡ true) ↔ IsFair tickets
group_satisfies_all_iff_example = group_satisfies_all_iff tickets

abbrev pool_calls : List PoolCall
pool_calls =
    submit_call 5 "t1" "x1" (record (ticket "" 1) { session_id = "s1"; user_id = "ann" })
    ∷ submit_call 6 "t2" "x2" (record (ticket "" 1) { session_id = "s2"; user_id = "bob" })
    ∷ submit_call 7 "t3" "x3" (record (ticket "" 9) { session_id = "s2"; user_id = "bob" })
    ∷ submit_call 8 "t4" "x4" (record (ticket "" 2) { session_id = "s2"; party_id = "p" })
    ∷ []

abbrev pool : Pool
pool = run pool_calls (new_pool config)

pool_program : Unit {0}
unfolding program new_pool bare_queue queue_config name_ticket count_ticket own_presence
    complete_ticket prepare_ticket counts_invalid recent times_of check_rate_limit inner
    admit_ticket submit unrelate drop_ticket cancel cancel_each party_ticket_ids remove_party_all
    remove_session_all perform run related relate latest checks
pool_program = tt

pool_ids : keys pool.tickets ≡ "t1" ∷ "t2" ∷ "t4" ∷ []
unfolding pool_program
pool_ids = refl

pool-IsPoolOk : IsPoolOk pool
pool-IsPoolOk = run-IsPoolOk config pool_calls (omega arith)

run-IsPoolOk_example : IsPoolOk (run pool_calls (new_pool config))
run-IsPoolOk_example = run-IsPoolOk config pool_calls (omega arith)

after_removal : keys (remove_session_all "s2" pool).tickets ≡ "t1" ∷ []
unfolding pool_program
after_removal = refl

remove_session_all_lem_example :
    ((x : String) (t : Ticket)
      → lookup x (remove_session_all "s2" pool).tickets ≡ some t
      → t.session_id ≢ "s2")
    × ((x : String)
        → related "s2" x pool.session_tickets ≡ false
        → lookup x (remove_session_all "s2" pool).tickets ≡ lookup x pool.tickets)
remove_session_all_lem_example = remove_session_all_lem "s2" pool pool-IsPoolOk

t1_stays : lookup "t1" (remove_party_all "p" pool).tickets ≡ lookup "t1" pool.tickets
unfolding pool_program
t1_stays = refl

abbrev times : List ℕ
times = 10 ∷ 20 ∷ 20 ∷ 30 ∷ []

abbrev strict : MatchmakerConfig
strict = record config { rate_limit_max = pos 2 }

two_pass : (checks "ann" times (new_pool strict) []).1 ≡ 10 ∷ 20 ∷ []
unfolding pool_program
two_pass = refl

rate_limit_lem_example :
    pos (
      length (
        recent
          (latest 0 times)
          strict.rate_limit_window_sec
          (checks "ann" times (new_pool strict) []).1))
    ≤ℤ strict.rate_limit_max
rate_limit_lem_example =
    rate_limit_lem "ann" 0 times strict (omega arith) (omega arith) (ground arith)
