-- ===== src/Match/Tick.antt =====
-- internal/match/loop.go: `tick`, for a match of Go code and for the demo; no Lua function is set.
-- A tick takes what is in the queues when it comes to them. `now` is the time in milliseconds.
use ultimate_game_server.Prelude.{
  ℕ, ◌+◌, ◌-◌, ◌*◌, ◌^◌, String, ◌⊎◌, inl, inr, Bool, true, not, ◌&&◌, Option, none, some, List, [],
  ◌∷◌, ◌++◌, ltb, leb, ◌==◌, if◌then◌else◌, ◌>>=◌, same, is_zero_ℤ, diff_ℤ, ℤ, pos, string_key,
}
use ultimate_game_server.Dict.{Dict, lookup, has, insert, delete}
use ultimate_game_server.Match.Types.{
  Reply, MatchPresence, MatchJoinRequest, MatchInput, MatchData, GoMatch, MatchLoop, JoinResponse,
  let_in, kept_out,
}
use ultimate_game_server.Match.Queues.{commands}
use Prim.Native.Char.{code}

-- A tick under way: who joined, who left, and if there was any request.
pub record Turn (S : Type 0) : Type 0 where
  pub loop : MatchLoop S
  pub joined_now : List MatchPresence
  pub left_now : List MatchPresence
  pub active : Bool

-- `inr` is the loop when a handler has panicked.
abbrev pub Outcome : Type 0 → Type 0
Outcome S = Turn S ⊎ MatchLoop S

-- `strconv.ParseInt(s, 10, 64)`
unfoldable digits : ℕ → String → Option ℕ
digits acc String.[] = some acc
digits acc (String.◌∷◌ c s) =
    let rest = digits (10 * acc + (code c - 48)) s in
    if leb 48 (code c) && leb (code c) 57 then rest else none

abbrev number : String → Option ℕ
number String.[] = none
number (String.◌∷◌ c s) = digits 0 (String.◌∷◌ c s)

unfoldable pub parse_int : String → Option ℤ
unfolding digits
parse_int String.[] = none
parse_int (String.◌∷◌ c s) =
    if code c == 45
    then (do n ← number s; if leb n (2 ^ 63) then some (diff_ℤ 0 n) else none)
    else do
      n ← if code c == 43 then number s else number (String.◌∷◌ c s)
      if ltb n (2 ^ 63) then some (pos n) else none

unfoldable pub op_code_of : MatchInput → ℤ
unfolding parse_int
op_code_of x =
    if is_zero_ℤ x.op_code && not (same x.action "")
    then elim (parse_int x.action) [ none ↦ pos 1 | some n ↦ n ]
    else x.op_code

unfoldable pub data_of_input : String → ℤ → MatchInput → MatchData
unfolding op_code_of
data_of_input node now x = record {
  presence = record {
    user_id = x.user_id;
    session_id = if same x.session_id "" then "session-local" else x.session_id;
    username = if same x.username "" then "player" else x.username;
    node_id = node;
  };
  op_code = op_code_of x;
  payload = x.payload;
  reliable = x.reliable;
  receive_time = now;
}

abbrev pub finish : {S : Type 0} → MatchLoop S → MatchLoop S
finish m = record m { state = record m.state { is_finished = true } }

module _ {S : Type 0} where
  abbrev pub go_on : Outcome S → (Turn S → Outcome S) → Outcome S
  go_on (inl t) f = f t
  go_on (inr m) f = inr m

  abbrev pub respond : String → JoinResponse S → MatchLoop S → MatchLoop S
  respond sess r m = record m { responses = m.responses ++ (sess, r) ∷ [] }

  abbrev pub add_presence : MatchPresence → Turn S → Turn S
  add_presence p t =
      let m = t.loop in
      record t {
        loop =
            respond p.session_id (let_in m.go_state)
              (record m { presences = insert p.session_id p m.presences });
        joined_now = t.joined_now ++ p ∷ [];
      }

  -- The answer of `MatchJoinAttempt`; its state counts only if it accepts.
  unfoldable pub take_attempt :
      MatchPresence → Turn S → Reply (Option S × Bool × String) → Outcome S
  unfolding commands
  take_attempt p t (none, cs) = inr (commands cs t.loop)
  take_attempt p t (some (s, accept, reason), cs) =
      let m = commands cs t.loop in
      inl (
        if accept
        then add_presence p (record t { loop = record m { go_state = s } })
        else record t { loop = respond p.session_id (kept_out reason) m })

  unfoldable pub attempt :
      Option (GoMatch S) → MatchPresence → Dict String String → Turn S → Outcome S
  unfolding take_attempt
  attempt none p metadata t = inl (add_presence p t)
  attempt (some g) p metadata t =
      take_attempt p t (g.match_join_attempt t.loop.state.tick t.loop.go_state p metadata)

  unfoldable pub join_one : MatchJoinRequest → Turn S → Outcome S
  unfolding attempt
  join_one r t0 =
      let m = t0.loop in
      let t : Turn S = record t0 { active = true } in
      let p : MatchPresence = record {
        user_id = r.user_id;
        session_id = r.session_id;
        username = r.username;
        node_id = m.node;
      } in
      if has r.session_id m.presences
      then inl (record t { loop = respond r.session_id (let_in m.go_state) m })
      else attempt m.go_match p r.metadata t

  unfoldable pub drain_joins : List MatchJoinRequest → Turn S → Outcome S
  unfolding join_one
  drain_joins [] t = inl t
  drain_joins (r ∷ rs) t =
      go_on (join_one r (record t { loop = record t.loop { join_requests = rs } })) (drain_joins rs)

  unfoldable pub leave_one : String → Turn S → Turn S
  leave_one sess t = elim (lookup sess t.loop.presences) [
    | none ↦ record t { active = true }
    | some p ↦ record t {
      loop = record t.loop { presences = delete sess t.loop.presences };
      left_now = t.left_now ++ p ∷ [];
      active = true;
    }
  ]

  unfoldable pub drain_leaves : List String → Turn S → Turn S
  unfolding leave_one
  drain_leaves [] t = t
  drain_leaves (s ∷ ss) t = drain_leaves ss (leave_one s t)

  -- A call of a handler that returns the next state.
  abbrev pub with_reply : Turn S → Reply (Option S) → Outcome S
  with_reply t (none, cs) = inr (commands cs t.loop)
  with_reply t (some s, cs) = inl (record t { loop = record (commands cs t.loop) { go_state = s } })

  abbrev pub result : String → MatchLoop S → MatchLoop S
  result x m = record m { signal_results = m.signal_results ++ x ∷ [] }

  unfoldable pub take_signal : Turn S → Reply (Option S × String) → Outcome S
  unfolding commands
  take_signal t (none, cs) = inr (commands cs t.loop)
  take_signal t (some (s, x), cs) =
      inl (record t { loop = result x (record (commands cs t.loop) { go_state = s }) })

  unfoldable pub signal_with : Option (GoMatch S) → String → Turn S → Outcome S
  unfolding take_signal
  signal_with none d t = inl (record t { loop = result "" t.loop })
  signal_with (some g) d t = take_signal t (g.match_signal t.loop.state.tick t.loop.go_state d)

  unfoldable pub signal_one : String → Turn S → Outcome S
  unfolding signal_with
  signal_one d t = signal_with t.loop.go_match d (record t { active = true })

  unfoldable pub drain_signals : List String → Turn S → Outcome S
  unfolding signal_one
  drain_signals [] t = inl t
  drain_signals (d ∷ ds) t =
      go_on (signal_one d (record t { loop = record t.loop { signal_requests = ds } }))
        (drain_signals ds)
