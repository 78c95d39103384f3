-- ===== src/Match/Run.antt =====
-- internal/match/loop.go: the rest of a tick, and the turn of `Start`.
use ultimate_game_server.Prelude.{
  ℕ, suc, ◌*◌, ◌^◌, inl, inr, Bool, true, false, not, ◌&&◌, ◌||◌, Option, none, some, List, [], ◌∷◌,
  map, ltb, leb, ◌==◌, if◌then◌else◌, same, leb_ℤ, add_ℤ, ℤ, pos, string_key,
}
use ultimate_game_server.Dict.{lookup, insert, size, keys}
use ultimate_game_server.Match.Types.{
  Reply, MatchPresence, MatchInput, MatchState, GoMatch, MatchLoop, state_data,
}
use ultimate_game_server.Match.Queues.{send_to, commands, flush_deferred}
use ultimate_game_server.Match.Tick.{
  Outcome, data_of_input, finish, go_on, drain_joins, drain_leaves, with_reply, drain_signals, Turn,
}

-- `maxMatchStateBytes`
abbrev pub max_state_bytes : ℕ
max_state_bytes = 2 ^ 20

-- The inputs of the demo: a move, or a score, of which ten end the match.
unfoldable pub demo_input : MatchInput → MatchState → MatchState
demo_input x st =
    let n : ℤ = elim (lookup x.user_id st.score) [ none ↦ pos 1 | some k ↦ add_ℤ k (pos 1) ] in
    if same x.action "move"
    then record st { positions = insert x.user_id x.payload st.positions }
    else if same x.action "score"
    then record st {
      score = insert x.user_id n st.score;
      is_finished = st.is_finished || leb_ℤ (pos 10) n;
    }
    else st

unfoldable pub demo_inputs : List MatchInput → MatchState → MatchState
unfolding demo_input
demo_inputs [] st = st
demo_inputs (x ∷ xs) st = demo_inputs xs (demo_input x st)

module _ {S : Type 0} where
  -- A handler that is told of presences, if there are any.
  unfoldable pub tell :
      (GoMatch S → Reply (Option S)) → Option (GoMatch S) → List MatchPresence → Turn S → Outcome S
  unfolding commands
  tell f o [] t = inl t
  tell f none (p ∷ ps) t = inl t
  tell f (some g) (p ∷ ps) t = with_reply t (f g)

  unfoldable pub call_join : Turn S → Outcome S
  unfolding tell
  call_join t =
      let m = t.loop in
      tell (λ g. g.match_join m.state.tick m.go_state t.joined_now) m.go_match t.joined_now t

  unfoldable pub call_leave : Turn S → Outcome S
  unfolding tell
  call_leave t =
      let m = t.loop in
      tell (λ g. g.match_leave m.state.tick m.go_state t.left_now) m.go_match t.left_now t

  -- What `MatchLoop` returned: nil ends the match.
  unfoldable pub take_state : GoMatch S → Option S → MatchLoop S → MatchLoop S
  take_state g none m = finish m
  take_state g (some s) m = record m { go_state = some s; state = g.merge s m.state }

  unfoldable pub take_loop : GoMatch S → Turn S → Reply (Option S) → Outcome S
  unfolding commands take_state
  take_loop g t (none, cs) = inr (commands cs t.loop)
  take_loop g t (some s, cs) = inl (record t { loop = take_state g s (commands cs t.loop) })

  unfoldable pub loop_with : ℤ → Option (GoMatch S) → List MatchInput → Turn S → Outcome S
  unfolding take_loop data_of_input demo_inputs
  loop_with now none xs t =
      let st = demo_inputs xs t.loop.state in
      inl (record t {
        loop = send_to (state_data st) (keys t.loop.presences) (record t.loop { state = st });
      })
  loop_with now (some g) xs t =
      let m = t.loop in
      take_loop g t (g.match_loop m.state.tick m.go_state (map (data_of_input m.node now) xs))

  -- The inputs, and the state of the demo to all.
  unfoldable pub call_loop : ℤ → Turn S → Outcome S
  unfolding loop_with
  call_loop now t =
      let xs = t.loop.inputs in
      let busy : Bool = elim xs [ [] ↦ t.active | _ ∷ _ ↦ true ] in
      loop_with now t.loop.go_match xs
        (record t { loop = record t.loop { inputs = [] }; active = busy })

  abbrev pub state_size : MatchLoop S → ℕ
  state_size m = elim m.go_match [ none ↦ 0 | some g ↦ g.size m.go_state ]

  -- A state that is too big ends the match.
  unfoldable pub check_size : MatchLoop S → MatchLoop S
  check_size m = if ltb max_state_bytes (state_size m) then finish m else m

  -- So do too many ticks without a presence or a request.
  unfoldable pub check_idle : Bool → MatchLoop S → MatchLoop S
  check_idle active m =
      let limit = m.tick_rate * m.max_empty_sec in
      let n = suc m.empty_ticks in
      if not (ltb 0 m.max_empty_sec)
      then m
      else if size m.presences == 0 && not active
      then (if ltb 0 limit && ltb limit n
          then finish (record m { empty_ticks = n })
          else record m { empty_ticks = n })
      else record m { empty_ticks = 0 }

  abbrev pub start_turn : MatchLoop S → Turn S
  start_turn m = record {
    loop = record m { state = record m.state { tick = add_ℤ m.state.tick (pos 1) } };
    joined_now = [];
    left_now = [];
    active = false;
  }

  -- The requests: those of leaving are taken when all of joining are done.
  unfoldable pub take_requests : Turn S → Outcome S
  unfolding drain_joins drain_leaves drain_signals
  take_requests t = go_on (drain_joins t.loop.join_requests t) λ t1.
      let t2 =
        drain_leaves t1.loop.leave_requests
          (record t1 { loop = record t1.loop { leave_requests = [] } }) in
      drain_signals t2.loop.signal_requests t2

  unfoldable pub run_turn : ℤ → Turn S → Outcome S
  unfolding take_requests call_join call_leave call_loop
  run_turn now t = go_on (go_on (go_on (take_requests t) call_join) call_leave) (call_loop now)

  abbrev pub settle : Outcome S → MatchLoop S
  settle (inl t) = check_idle t.active (check_size t.loop)
  settle (inr m) = finish m

  -- `tick`: a panic of a handler ends the match; the deferred broadcasts go out in any case.
  unfoldable pub run_tick : ℤ → MatchLoop S → MatchLoop S
  unfolding run_turn check_idle check_size flush_deferred
  run_tick now m = flush_deferred (settle (run_turn now (start_turn m)))

  -- One turn of `Start`: ten ticks in a row over the soft limit of 50 ms end the match. The loop, the
  -- overruns in a row, and if it is over.
  unfoldable pub start_step : ℤ → ℕ → ℕ → MatchLoop S → MatchLoop S × ℕ × Bool
  unfolding run_tick
  start_step now elapsed overruns m =
      let m1 = run_tick now m in
      if ltb 50000000 elapsed
      then (if leb 10 (suc overruns)
          then (finish m1, suc overruns, true)
          else (m1, suc overruns, m1.state.is_finished))
      else (m1, 0, m1.state.is_finished)
