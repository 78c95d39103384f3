-- ===== src/Match/Calls.antt =====
-- internal/match/loop.go: sequences of requests and ticks.
use ultimate_game_server.Prelude.{String, List, [], ◌∷◌, ℤ, string_key}
use ultimate_game_server.Match.Types.{MatchJoinRequest, MatchInput, MatchLoop}
use ultimate_game_server.Match.Queues.{submit_input, request_leave, request_join, request_signal}
use ultimate_game_server.Match.Run.{run_tick}

pub data LoopCall : Type 0 where
  input_call : MatchInput → LoopCall
  join_call : MatchJoinRequest → LoopCall
  leave_call : String → LoopCall
  signal_call : String → LoopCall
  tick_call : ℤ → LoopCall

module _ {S : Type 0} where
  unfoldable pub loop_step : LoopCall → MatchLoop S → MatchLoop S
  unfolding submit_input request_join request_leave request_signal run_tick
  loop_step (input_call x) m = submit_input x m
  loop_step (join_call r) m = (request_join r m).0
  loop_step (leave_call s) m = request_leave s m
  loop_step (signal_call d) m = request_signal d m
  loop_step (tick_call now) m = run_tick now m

  unfoldable pub loop_run : List LoopCall → MatchLoop S → MatchLoop S
  unfolding loop_step
  loop_run [] m = m
  loop_run (c ∷ cs) m = loop_run cs (loop_step c m)
