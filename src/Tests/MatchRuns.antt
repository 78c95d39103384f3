-- ===== src/Tests/MatchRuns.antt =====
-- Runs of internal/match/loop.go.
use ultimate_game_server.Prelude.{
  ℕ, String, ◌≡◌, refl, true, false, not, none, some, List, [], ◌∷◌, ◌++◌, arith, String-discrete,
  same, pos, string_key,
}
use ultimate_game_server.Dict.{lookup, insert, delete, keys}
use ultimate_game_server.Match.Types.{
  MatchJoinRequest, GoMatch, MatchLoop, broadcast_deferred, match_kick,
}
use ultimate_game_server.Match.Queues.{
  submit_input, request_leave, request_join, request_signal, kick_each, update_label, command,
  commands, flush_each, flush_deferred,
}
use ultimate_game_server.Match.Tick.{
  op_code_of, data_of_input, take_attempt, attempt, join_one, drain_joins, leave_one, drain_leaves,
  take_signal, signal_with, signal_one, drain_signals,
}
use ultimate_game_server.Match.Run.{
  demo_input, demo_inputs, tell, call_join, call_leave, take_state, take_loop, loop_with, call_loop,
  check_size, check_idle, start_turn, take_requests, run_turn, run_tick,
}
use ultimate_game_server.Match.Calls.{
  loop_step, loop_run, LoopCall, join_call, signal_call, tick_call,
}
use ultimate_game_server.Match.Responses.{requesters, answered, goes_on, run_tick-answered}
use ultimate_game_server.Match.Idle.{IsQuiet, ticks, ticks-finished}

-- The handler keeps a number, lets in who is not "eve", and kicks who signals "kick".
abbrev handler : GoMatch ℕ
handler = record {
  match_join_attempt = λ n s p d. (some (s, not (same p.user_id "eve"), "no room"), []);
  match_join = λ n s ps. (some s, []);
  match_leave = λ n s ps. (some s, []);
  match_signal = λ n s d. (some (s, d), match_kick ("s1" ∷ []) ∷ []);
  match_loop = λ n s xs. (some s, []);
  size = λ s. 0;
  merge = λ s st. st;
}

abbrev new_match : MatchLoop ℕ
new_match = record {
  node = "n";
  tick_rate = 2;
  max_empty_sec = 1;
  go_match = some handler;
  go_state = some 7;
  state = record { tick = pos 0; score = []; positions = []; is_finished = false };
  presences = [];
  inputs = [];
  join_requests = [];
  leave_requests = [];
  signal_requests = [];
  deferred = [];
  label = "";
  empty_ticks = 0;
  sent = [];
  responses = [];
  signal_results = [];
}

abbrev request : String → String → MatchJoinRequest
request user sess = record { user_id = user; username = user; metadata = []; session_id = sess }

abbrev calls : List LoopCall
calls =
    join_call (request "ann" "s1")
    ∷ join_call (request "eve" "s2")
    ∷ tick_call (pos 0)
    ∷ signal_call "kick"
    ∷ tick_call (pos 50)
    ∷ []

match_program : Unit {0}
unfolding submit_input request_leave request_join request_signal kick_each update_label command
    commands flush_each flush_deferred take_attempt attempt join_one drain_joins leave_one
    drain_leaves take_signal signal_with signal_one drain_signals tell call_join call_leave
    take_state take_loop loop_with demo_input demo_inputs call_loop check_size check_idle
    take_requests run_turn run_tick loop_step loop_run lookup insert delete String-discrete IsQuiet
    op_code_of data_of_input
match_program = tt

-- Ann is in after the first tick; the kick of the second is carried out in the third.
members :
    (keys (loop_run calls new_match).presences ≡ "s1" ∷ [])
    × (answered (loop_run calls new_match) ≡ "s1" ∷ "s2" ∷ [])
    × (keys (loop_run (calls ++ tick_call (pos 100) ∷ []) new_match).presences ≡ [])
unfolding match_program
members = (refl, refl, refl)

abbrev waiting : MatchLoop ℕ
waiting = record new_match { join_requests = request "ann" "s1" ∷ request "eve" "s2" ∷ [] }

no_panic : goes_on (run_turn (pos 0) (start_turn waiting)) ≡ true
unfolding match_program
no_panic = refl

run_tick-answered_example :
    answered (run_tick (pos 0) waiting) ≡ answered waiting ++ requesters waiting.join_requests
run_tick-answered_example = run_tick-answered (pos 0) waiting no_panic

-- Ann is let in, and then the handler panics with a broadcast deferred.
abbrev faulty : MatchLoop ℕ
faulty = record waiting {
  go_match = some (record handler {
    match_loop = λ n s xs. (
      none,
      broadcast_deferred (record {
        op_code = pos 1;
        payload = "bye";
        filter = [];
        sender = none;
        reliable = true;
      })
          ∷ [],
    );
  });
}

-- The broadcast is sent all the same.
sent_to_ann : keys (run_tick (pos 0) faulty).sent ≡ "s1" ∷ []
unfolding match_program
sent_to_ann = refl

new_match-IsQuiet : IsQuiet new_match.go_match
unfolding match_program
new_match-IsQuiet = λ n s. (s, refl)

ticks-finished_example :
    (ticks (pos 0 ∷ pos 500 ∷ pos 1000 ∷ []) new_match).state.is_finished ≡ true
ticks-finished_example =
    ticks-finished (pos 0) (pos 500 ∷ pos 1000 ∷ []) new_match (refl, refl, refl, refl, refl)
      new_match-IsQuiet (omega arith) (omega arith) (omega arith)
