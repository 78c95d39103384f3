-- ===== src/Match/Responses.antt =====
-- internal/match/loop.go: a tick answers the join requests.
use ultimate_game_server.Prelude.{
  suc, ◌*◌, String, ◌≡◌, refl, sym, ap, ◌∙◌, inl, inr, Bool, true, false, not, ◌&&◌, Option, none,
  some, List, [], ◌∷◌, ◌++◌, map, arith, ltb, ◌==◌, Option-cases, if_ind, ℤ, byte_length,
  string_key,
}
use ultimate_game_server.Dict.{Dict, lookup, has, insert, size}
use ultimate_game_server.Match.Types.{
  Reply, MatchPresence, MatchJoinRequest, MatchInput, Deferred, GoMatch, MatchLoop, Command,
  broadcast, broadcast_deferred, match_kick, label_update, match_data, JoinResponse, let_in,
  kept_out,
}
use ultimate_game_server.Match.Queues.{
  request_leave, targets, send_to, kick_each, update_label, command, commands, flush_each,
  flush_deferred,
}
use ultimate_game_server.Match.Tick.{
  Outcome, data_of_input, go_on, respond, take_attempt, attempt, join_one, drain_joins, leave_one,
  drain_leaves, with_reply, take_signal, signal_with, signal_one, drain_signals, Turn,
}
use ultimate_game_server.Match.Run.{
  max_state_bytes, tell, call_join, call_leave, take_state, take_loop, loop_with, call_loop,
  state_size, check_size, check_idle, start_turn, take_requests, run_turn, settle, run_tick,
}
use mathlib.Core.Path.{subst}
use mathlib.Core.List.{append_assoc, append-nil}

abbrev pub requesters : List MatchJoinRequest → List String
requesters rs = map (λ r. r.session_id) rs

map-append {ℓ} :
    {A B : Type ℓ} (f : A → B) (xs ys : List A) → map f (xs ++ ys) ≡ map f xs ++ map f ys
map-append f [] ys = refl
map-append f (x ∷ xs) ys = cc (map-append f xs ys)

module _ {S : Type 0} where
  abbrev pub answered : MatchLoop S → List String
  answered m = map (λ p. p.0) m.responses

  kick_each-answered : (ss : List String) (m : MatchLoop S) → answered (kick_each ss m) ≡ answered m
  unfolding kick_each request_leave
  kick_each-answered [] m = refl
  kick_each-answered (s ∷ ss) m = kick_each-answered ss (request_leave s m)

  command-answered : (c : Command) (m : MatchLoop S) → answered (command c m) ≡ answered m
  unfolding command update_label
  command-answered (broadcast d) m = refl
  command-answered (broadcast_deferred x) m = refl
  command-answered (match_kick ss) m = kick_each-answered ss m
  command-answered (label_update l) m =
      if_ind (λ m'. answered m' ≡ answered m) (ltb 2048 (byte_length l)) (λ e. refl) λ e. refl

  commands-answered : (cs : List Command) (m : MatchLoop S) → answered (commands cs m) ≡ answered m
  unfolding commands
  commands-answered [] m = refl
  commands-answered (c ∷ cs) m = commands-answered cs (command c m) ∙ command-answered c m

  pub flush_each-answered :
      (ds : List Deferred) (m : MatchLoop S) → answered (flush_each ds m) ≡ answered m
  unfolding flush_each
  flush_each-answered [] m = refl
  flush_each-answered (d ∷ ds) m =
      flush_each-answered ds (send_to (match_data d) (targets d.filter m) m)

  -- If the turn goes on, these sessions have been answered; after a panic, the first of them.
  abbrev pub Answering : List String → Outcome S → Type 0
  Answering xs (inl t) = answered t.loop ≡ xs
  Answering xs (inr m) = (rest : List String) × (answered m ++ rest ≡ xs)

  go_on-Answering :
      (xs ys zs : List String) (o : Outcome S) (f : Turn S → Outcome S)
      → xs ++ zs ≡ ys
      → Answering xs o
      → ((t : Turn S) → answered t.loop ≡ xs → Answering ys (f t))
      → Answering ys (go_on o f)
  go_on-Answering xs ys zs (inl t) f p k g = g t k
  go_on-Answering xs ys zs (inr m) f p (rest, e) g =
      (rest ++ zs, sym (append_assoc (answered m) rest zs) ∙ ap (λ l. l ++ zs) e ∙ p)

  panic-Answering :
      (cs : List Command) (m : MatchLoop S) (xs : List String)
      → answered m ≡ xs
      → Answering xs (inr (commands cs m))
  panic-Answering cs m xs e =
      ([], append-nil (answered (commands cs m)) ∙ commands-answered cs m ∙ e)

  respond-answered :
      (sess : String) (r : JoinResponse S) (m : MatchLoop S) (xs : List String)
      → answered m ≡ xs
      → answered (respond sess r m) ≡ xs ++ sess ∷ []
  respond-answered sess r m xs e = map-append (λ p. p.0) m.responses ((sess, r) ∷ []) ∙ rw e refl

  attempt-Answering :
      (o : Option (GoMatch S)) (p : MatchPresence) (d : Dict String String) (t : Turn S)
      (xs : List String)
      → answered t.loop ≡ xs
      → Answering (xs ++ p.session_id ∷ []) (attempt o p d t)
  unfolding attempt take_attempt
  attempt-Answering none p d t xs e =
      respond-answered p.session_id (let_in t.loop.go_state)
        (record t.loop { presences = insert p.session_id p t.loop.presences }) xs e
  attempt-Answering (some g) p d t xs e =
      let (o, cs) = g.match_join_attempt t.loop.state.tick t.loop.go_state p d in
      elim o as (λ r. Answering (xs ++ p.session_id ∷ []) (take_attempt p t (r, cs))) [
        | none ↦
            (p.session_id ∷ [], ap (λ l. l ++ p.session_id ∷ []) (commands-answered cs t.loop ∙ e))
        | some (s, true, reason) ↦
            let m = commands cs t.loop in
            respond-answered p.session_id (let_in s)
              (record m { go_state = s; presences = insert p.session_id p m.presences }) xs
              (commands-answered cs t.loop ∙ e)
        | some (s, false, reason) ↦
            respond-answered p.session_id (kept_out reason) (commands cs t.loop) xs
              (commands-answered cs t.loop ∙ e)
      ]

  join_one-Answering :
      (r : MatchJoinRequest) (t : Turn S) (xs : List String)
      → answered t.loop ≡ xs
      → Answering (xs ++ r.session_id ∷ []) (join_one r t)
  unfolding join_one
  join_one-Answering r t xs e =
      if_ind (Answering (xs ++ r.session_id ∷ [])) (has r.session_id t.loop.presences)
        (λ q. respond-answered r.session_id (let_in t.loop.go_state) t.loop xs e)
        λ q. attempt-Answering t.loop.go_match _ r.metadata (record t { active = true }) xs e

  drain_joins-Answering :
      (rs : List MatchJoinRequest) (t : Turn S) (xs : List String)
      → answered t.loop ≡ xs
      → Answering (xs ++ requesters rs) (drain_joins rs t)
  unfolding drain_joins
  drain_joins-Answering [] t xs e = e ∙ sym (append-nil xs)
  drain_joins-Answering (r ∷ rs) t xs e =
      let u : Turn S = record t { loop = record t.loop { join_requests = rs } } in
      go_on-Answering (xs ++ r.session_id ∷ []) (xs ++ requesters (r ∷ rs)) (requesters rs)
        (join_one r u) (drain_joins rs) (append_assoc xs (r.session_id ∷ []) (requesters rs))
        (join_one-Answering r u xs e)
        λ v k.
          subst (λ l. Answering l (drain_joins rs v))
            (append_assoc xs (r.session_id ∷ []) (requesters rs))
            (drain_joins-Answering rs v (xs ++ r.session_id ∷ []) k)

  drain_leaves-answered :
      (ss : List String) (t : Turn S) → answered (drain_leaves ss t).loop ≡ answered t.loop
  unfolding drain_leaves
  drain_leaves-answered [] t = refl
  drain_leaves-answered (s ∷ ss) t =
      drain_leaves-answered ss (leave_one s t) ∙ elim (Option-cases (lookup s t.loop.presences)) [
        | inl q ↦ rw (q, leave_one) refl
        | inr (p, q) ↦ rw (q, leave_one) refl
      ]

  signal_with-Answering :
      (o : Option (GoMatch S)) (d : String) (t : Turn S) (xs : List String)
      → answered t.loop ≡ xs
      → Answering xs (signal_with o d t)
  unfolding signal_with take_signal
  signal_with-Answering none d t xs e = e
  signal_with-Answering (some g) d t xs e =
      let (o, cs) = g.match_signal t.loop.state.tick t.loop.go_state d in
      elim o as (λ r. Answering xs (take_signal t (r, cs))) [
        | none ↦ panic-Answering cs t.loop xs e
        | some x ↦ commands-answered cs t.loop ∙ e
      ]

  drain_signals-Answering :
      (ds : List String) (t : Turn S) (xs : List String)
      → answered t.loop ≡ xs
      → Answering xs (drain_signals ds t)
  unfolding drain_signals signal_one
  drain_signals-Answering [] t xs e = e
  drain_signals-Answering (d ∷ ds) t xs e =
      let u : Turn S = record t { loop = record t.loop { signal_requests = ds }; active = true } in
      go_on-Answering xs xs [] (signal_with t.loop.go_match d u) (drain_signals ds) (append-nil xs)
        (signal_with-Answering t.loop.go_match d u xs e) λ v k. drain_signals-Answering ds v xs k

  tell-Answering :
      (f : GoMatch S → Reply (Option S)) (o : Option (GoMatch S)) (ps : List MatchPresence)
      (t : Turn S) (xs : List String)
      → answered t.loop ≡ xs
      → Answering xs (tell f o ps t)
  unfolding tell
  tell-Answering f o [] t xs e = e
  tell-Answering f none (p ∷ ps) t xs e = e
  tell-Answering f (some g) (p ∷ ps) t xs e =
      let (o, cs) = f g in
      elim o as (λ r. Answering xs (with_reply t (r, cs))) [
        | none ↦ panic-Answering cs t.loop xs e
        | some s ↦ commands-answered cs t.loop ∙ e
      ]

  loop_with-Answering :
      (now : ℤ) (o : Option (GoMatch S)) (ins : List MatchInput) (t : Turn S) (xs : List String)
      → answered t.loop ≡ xs
      → Answering xs (loop_with now o ins t)
  unfolding loop_with take_loop take_state
  loop_with-Answering now none ins t xs e = e
  loop_with-Answering now (some g) ins t xs e =
      let (o, cs) =
        g.match_loop t.loop.state.tick t.loop.go_state (map (data_of_input t.loop.node now) ins) in
      elim o as (λ r. Answering xs (take_loop g t (r, cs))) [
        | none ↦ panic-Answering cs t.loop xs e
        | some none ↦ commands-answered cs t.loop ∙ e
        | some (some s) ↦ commands-answered cs t.loop ∙ e
      ]

  pub run_turn-Answering :
      (now : ℤ) (t : Turn S) (xs : List String)
      → answered t.loop ≡ xs
      → Answering (xs ++ requesters t.loop.join_requests) (run_turn now t)
  unfolding run_turn take_requests call_join call_leave call_loop
  run_turn-Answering now t xs e =
      let all = xs ++ requesters t.loop.join_requests in
      go_on-Answering all all [] (go_on (go_on (take_requests t) call_join) call_leave)
        (call_loop now) (append-nil all)
        (go_on-Answering all all [] (go_on (take_requests t) call_join) call_leave (append-nil all)
          (go_on-Answering all all [] (take_requests t) call_join (append-nil all)
            (go_on-Answering all all [] (drain_joins t.loop.join_requests t) _ (append-nil all)
              (drain_joins-Answering t.loop.join_requests t xs e)
              λ t1 k.
                let ss = t1.loop.leave_requests in
                let u : Turn S = record t1 { loop = record t1.loop { leave_requests = [] } } in
                drain_signals-Answering (drain_leaves ss u).loop.signal_requests (drain_leaves ss u)
                  all (drain_leaves-answered ss u ∙ k))
            λ u k. tell-Answering _ u.loop.go_match u.joined_now u all k)
          λ u k. tell-Answering _ u.loop.go_match u.left_now u all k)
        λ u k.
          loop_with-Answering now u.loop.go_match u.loop.inputs
            (record u { loop = record u.loop { inputs = [] }; active = _ }) all k

  check_idle-answered :
      (active : Bool) (m : MatchLoop S) → answered (check_idle active m) ≡ answered m
  unfolding check_idle
  check_idle-answered active m =
      let same : MatchLoop S → Type 0 = λ m'. answered m' ≡ answered m in
      if_ind same (not (ltb 0 m.max_empty_sec)) (λ e. refl)
        λ e.
          if_ind same (size m.presences == 0 && not active)
            (λ e.
              if_ind same
                (ltb 0 (m.tick_rate * m.max_empty_sec)
                  && ltb (m.tick_rate * m.max_empty_sec) (suc m.empty_ticks))
                (λ e. refl) λ e. refl)
            λ e. refl

  settle-answered : (t : Turn S) → answered (settle (inl t)) ≡ answered t.loop
  unfolding check_size
  settle-answered t =
      check_idle-answered t.active (check_size t.loop)
      ∙ if_ind (λ m'. answered m' ≡ answered t.loop) (ltb max_state_bytes (state_size t.loop))
          (λ e. refl) λ e. refl

  abbrev pub goes_on : Outcome S → Bool
  goes_on (inl t) = true
  goes_on (inr m) = false

  settled :
      (o : Outcome S) (xs : List String)
      → goes_on o ≡ true
      → Answering xs o
      → answered (settle o) ≡ xs
  settled (inl t) xs g k = settle-answered t ∙ k
  settled (inr m) xs g k = ground arith

  -- If no handler panics, a tick answers each join request that is queued, once and in their order,
  -- and nobody else.
  pub run_tick-answered :
      (now : ℤ) (m : MatchLoop S)
      → goes_on (run_turn now (start_turn m)) ≡ true
      → answered (run_tick now m) ≡ answered m ++ requesters m.join_requests
  unfolding run_tick flush_deferred
  run_tick-answered now m g =
      let o = run_turn now (start_turn m) in
      flush_each-answered (settle o).deferred (record (settle o) { deferred = [] })
      ∙ settled o (answered m ++ requesters m.join_requests) g
          (run_turn-Answering now (start_turn m) (answered m) refl)
