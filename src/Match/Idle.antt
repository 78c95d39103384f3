-- ===== src/Match/Idle.antt =====
-- internal/match/loop.go: a match that nobody is in and nobody asks anything of comes to its end.
use ultimate_game_server.Prelude.{
  ℕ, suc, ◌+◌, ◌*◌, ◌<◌, ◌≡◌, refl, sym, ap, ◌∙◌, inl, true, false, not, ◌&&◌, Option, none, some,
  List, [], ◌∷◌, map, arith, ltb, ◌==◌, lt→ltb, if_ind, length, ℤ, string_key,
}
use ultimate_game_server.Dict.{size, keys}
use ultimate_game_server.Match.Types.{Deferred, GoMatch, MatchLoop, match_data, state_data}
use ultimate_game_server.Match.Queues.{targets, send_to, commands, flush_each, flush_deferred}
use ultimate_game_server.Match.Tick.{drain_joins, drain_leaves, drain_signals, Turn}
use ultimate_game_server.Match.Run.{
  max_state_bytes, demo_inputs, tell, call_join, call_leave, take_state, take_loop, loop_with,
  call_loop, state_size, check_size, check_idle, start_turn, take_requests, run_turn, settle,
  run_tick,
}
use ultimate_game_server.Match.Calls.{loop_step, loop_run, tick_call}
use mathlib.Core.Path.{subst}
use native.Mathlib.Nat.{mul-pos}

module _ {S : Type 0} where
  -- Nobody is in the match and no request waits.
  abbrev pub IsIdle : MatchLoop S → Type 0
  IsIdle m =
      (m.presences ≡ [])
      × (m.join_requests ≡ [])
      × (m.leave_requests ≡ [])
      × (m.signal_requests ≡ [])
      × (m.inputs ≡ [])

  -- A tick without inputs does not panic and asks nothing of the dispatcher.
  unfoldable pub IsQuiet : Option (GoMatch S) → Type 0
  IsQuiet none = Unit
  IsQuiet (some g) =
      (n : ℤ) (st : Option S) → (s : Option S) × (g.match_loop n st [] ≡ (some s, []))

  -- Settings and counter are those of another loop, and it is idle.
  abbrev Like : MatchLoop S → MatchLoop S → Type 0
  Like m m' =
      IsIdle m'
      × (m'.go_match ≡ m.go_match)
      × (m'.tick_rate ≡ m.tick_rate)
      × (m'.max_empty_sec ≡ m.max_empty_sec)

  abbrev emptied : MatchLoop S → MatchLoop S
  emptied m = record m {
    presences = [];
    join_requests = [];
    leave_requests = [];
    signal_requests = [];
    inputs = [];
  }

  emptied_lem : (m : MatchLoop S) → IsIdle m → emptied m ≡ m
  emptied_lem m (a, b, c, d, e) = cc (a, b, c, d, e)

  take_state-Like :
      (g : GoMatch S) (s : Option S) (m : MatchLoop S)
      → IsIdle m
      → Like m (take_state g s m) × ((take_state g s m).empty_ticks ≡ m.empty_ticks)
  unfolding take_state
  take_state-Like g none m i = ((i, refl, refl, refl), refl)
  take_state-Like g (some s) m i = ((i, refl, refl, refl), refl)

  loop_idle :
      (now : ℤ) (o : Option (GoMatch S)) (t : Turn S)
      → IsIdle t.loop
      → IsQuiet o
      → (m' : MatchLoop S) × (loop_with now o [] t ≡ inl (record t { loop = m' }))
        × (Like t.loop m' × (m'.empty_ticks ≡ t.loop.empty_ticks))
  unfolding loop_with take_loop commands demo_inputs IsQuiet
  loop_idle now none t i q = (
    send_to (state_data t.loop.state) (keys t.loop.presences) t.loop,
    refl,
    ((i, refl, refl, refl), refl),
  )
  loop_idle now (some g) t i q =
      let (s, r) = q t.loop.state.tick t.loop.go_state in
      (take_state g s t.loop, rw r refl, take_state-Like g s t.loop i)

  run_idle :
      (now : ℤ) (m : MatchLoop S)
      → IsQuiet m.go_match
      → (m' : MatchLoop S) × (run_turn now (start_turn (emptied m))
          ≡ inl (record (start_turn (emptied m)) { loop = m' }))
        × (Like m m' × (m'.empty_ticks ≡ m.empty_ticks))
  unfolding run_turn take_requests drain_joins drain_leaves drain_signals call_join call_leave tell
      call_loop
  run_idle now m q =
      loop_idle now m.go_match (start_turn (emptied m)) (refl, refl, refl, refl, refl) q

  abbrev limit : MatchLoop S → ℕ
  limit m = m.tick_rate * m.max_empty_sec

  check_size-Like :
      (m m' : MatchLoop S)
      → Like m m'
      → Like m (check_size m') × ((check_size m').empty_ticks ≡ m'.empty_ticks)
  unfolding check_size
  check_size-Like m m' k =
      let kept : MatchLoop S → Type 0 = λ r. Like m r × (r.empty_ticks ≡ m'.empty_ticks) in
      if_ind kept (ltb max_state_bytes (state_size m')) (λ e. (k, refl)) λ e. (k, refl)

  -- An idle tick counts, and beyond the limit it ends the match.
  abbrev Counted : MatchLoop S → MatchLoop S → Type 0
  Counted m r =
      Like m r
      × (r.empty_ticks ≡ suc m.empty_ticks)
      × (limit m < suc m.empty_ticks → r.state.is_finished ≡ true)

  check_idle-Counted :
      (m m' : MatchLoop S)
      → Like m m'
      → m'.empty_ticks ≡ m.empty_ticks
      → 0 < m.max_empty_sec
      → 0 < m.tick_rate
      → Counted m (check_idle false m')
  unfolding check_idle
  check_idle-Counted m m' (i, g, r, x) e p p' =
      let same_limit : limit m' ≡ limit m = rw (r, x) refl in
      let some_limit : 0 < limit m = mul-pos p' p in
      let k : Like m m' = (i, g, r, x) in
      let n : suc m'.empty_ticks ≡ suc m.empty_ticks = ap suc e in
      let open_gate : 0 < m'.max_empty_sec = ground (arith, x) in
      let nobody : (size m'.presences == 0) ≡ true = rw (i.0) refl in
      if_ind (Counted m) (not (ltb 0 m'.max_empty_sec))
        (λ q. ground (arith, lt→ltb 0 m'.max_empty_sec open_gate))
        λ q.
          if_ind (Counted m) (size m'.presences == 0 && not false)
            (λ w.
              if_ind (Counted m) (ltb 0 (limit m') && ltb (limit m') (suc m'.empty_ticks))
                (λ c. (k, n, λ l. refl))
                λ c. (
                  k,
                  n,
                  λ l. ground (
                    arith,
                    same_limit,
                    some_limit,
                    lt→ltb 0 (limit m'),
                    lt→ltb (limit m') (suc m'.empty_ticks),
                  ),
                ))
            λ w. ground (arith, nobody)

  flush_idle :
      (ds : List Deferred) (m m' : MatchLoop S)
      → Like m m'
      → Like m (flush_each ds m')
        × ((flush_each ds m').empty_ticks ≡ m'.empty_ticks)
        × ((flush_each ds m').state ≡ m'.state)
  unfolding flush_each
  flush_idle [] m m' k = (k, refl, refl)
  flush_idle (d ∷ ds) m m' k = flush_idle ds m (send_to (match_data d) (targets d.filter m') m') k

  flush_deferred-Counted : (m r : MatchLoop S) → Counted m r → Counted m (flush_deferred r)
  unfolding flush_deferred
  flush_deferred-Counted m r (k, n, f) =
      let (k', n', st) = flush_idle r.deferred m (record r { deferred = [] }) k in
      (k', n' ∙ n, λ l. ap (λ s. s.is_finished) st ∙ f l)

  tick_emptied :
      (now : ℤ) (m : MatchLoop S)
      → IsQuiet m.go_match
      → 0 < m.max_empty_sec
      → 0 < m.tick_rate
      → Counted m (run_tick now (emptied m))
  unfolding run_tick
  tick_emptied now m q p p' =
      let (m', r, (k, e)) = run_idle now m q in
      let (k', e') = check_size-Like m m' k in
      flush_deferred-Counted m (settle (run_turn now (start_turn (emptied m)))) (
        subst (λ o. Counted m (settle o)) (sym r)
          (check_idle-Counted m (check_size m') k' (e' ∙ e) p p'))

  tick_idle :
      (now : ℤ) (m : MatchLoop S)
      → IsIdle m
      → IsQuiet m.go_match
      → 0 < m.max_empty_sec
      → 0 < m.tick_rate
      → Counted m (run_tick now m)
  tick_idle now m i q p p' =
      subst (λ m'. Counted m (run_tick now m')) (emptied_lem m i) (tick_emptied now m q p p')

  abbrev pub ticks : List ℤ → MatchLoop S → MatchLoop S
  ticks times m = loop_run (map tick_call times) m

  -- An idle match whose handler is quiet ends: once it has ticked more often without a presence or a
  -- request than its limit of empty seconds allows, at its tick rate, it is finished.
  pub ticks-finished :
      (now : ℤ) (times : List ℤ) (m : MatchLoop S)
      → IsIdle m
      → IsQuiet m.go_match
      → 0 < m.max_empty_sec
      → 0 < m.tick_rate
      → m.tick_rate * m.max_empty_sec < m.empty_ticks + suc (length times)
      → (ticks (now ∷ times) m).state.is_finished ≡ true
  unfolding loop_run loop_step
  ticks-finished now [] m i q p p' l =
      let (_, _, f) = tick_idle now m i q p p' in f (omega (arith, l))
  ticks-finished now (t ∷ times) m i q p p' l =
      let (k, n, f) = tick_idle now m i q p p' in
      let (i', g, r, x) = k in
      let m' = run_tick now m in
      let same_limit : limit m ≡ limit m' = rw (r, x) refl in
      ticks-finished t times m' i' (subst IsQuiet (sym g) q) (ground (arith, x)) (ground (arith, r))
        (subst (λ a. a < m'.empty_ticks + suc (length times)) same_limit (omega (arith, l, n)))
