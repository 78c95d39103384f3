-- ===== src/Match/Queues.antt =====
-- internal/match/loop.go: the queues of a match loop, each of a fixed length, and the dispatcher.
-- A send to a full queue is dropped.
use ultimate_game_server.Prelude.{
  ℕ, String, Bool, true, List, [], ◌∷◌, ◌++◌, map, ltb, if◌then◌else◌, length, byte_length,
  string_key,
}
use ultimate_game_server.Dict.{has, keys}
use ultimate_game_server.Match.Types.{
  MatchJoinRequest, MatchInput, Deferred, MatchLoop, Command, broadcast, broadcast_deferred,
  match_kick, label_update, Message, match_data,
}

abbrev pub input_size : ℕ
input_size = 128

abbrev pub deferred_size : ℕ
deferred_size = 128

abbrev pub signal_size : ℕ
signal_size = 10

abbrev pub request_size : ℕ
request_size = 128

-- `select { case ch <- x: default: }`
abbrev pub send {ℓ} : {A : Type ℓ} → ℕ → A → List A → List A
send n x q = if ltb (length q) n then q ++ x ∷ [] else q

module _ {S : Type 0} where
  unfoldable pub submit_input : MatchInput → MatchLoop S → MatchLoop S
  submit_input i m = record m { inputs = send input_size i m.inputs }

  -- `SubmitLeave` and `KickPlayer`; the user is not read.
  unfoldable pub request_leave : String → MatchLoop S → MatchLoop S
  request_leave sess m = record m { leave_requests = send request_size sess m.leave_requests }

  -- The queueing of `JoinAttempt`; a member is let in at once, and false is a full queue.
  unfoldable pub request_join : MatchJoinRequest → MatchLoop S → MatchLoop S × Bool
  request_join r m = if has r.session_id m.presences then (m, true) else (
    record m { join_requests = send request_size r m.join_requests },
    ltb (length m.join_requests) request_size,
  )

  -- `EnqueueSignal`, and the queueing of `SubmitSignal`.
  unfoldable pub request_signal : String → MatchLoop S → MatchLoop S
  request_signal d m = record m { signal_requests = send signal_size d m.signal_requests }

  -- `resolveTargets`
  abbrev pub targets : List String → MatchLoop S → List String
  targets [] m = keys m.presences
  targets (t ∷ ts) m = t ∷ ts

  -- `sendBroadcast`
  abbrev pub send_to : Message → List String → MatchLoop S → MatchLoop S
  send_to msg ts m = record m { sent = m.sent ++ map (λ t. (t, msg)) ts }

  unfoldable pub kick_each : List String → MatchLoop S → MatchLoop S
  unfolding request_leave
  kick_each [] m = m
  kick_each (s ∷ ss) m = kick_each ss (request_leave s m)

  -- `MatchLabelUpdate`: a label of more than 2048 bytes is refused.
  unfoldable pub update_label : String → MatchLoop S → MatchLoop S
  update_label l m = if ltb 2048 (byte_length l) then m else record m { label = l }

  unfoldable pub command : Command → MatchLoop S → MatchLoop S
  unfolding kick_each update_label
  command (broadcast d) m = send_to (match_data d) (targets d.filter m) m
  command (broadcast_deferred d) m = record m { deferred = send deferred_size d m.deferred }
  command (match_kick ss) m = kick_each ss m
  command (label_update l) m = update_label l m

  unfoldable pub commands : List Command → MatchLoop S → MatchLoop S
  unfolding command
  commands [] m = m
  commands (c ∷ cs) m = commands cs (command c m)

  -- `flushDeferred`
  unfoldable pub flush_each : List Deferred → MatchLoop S → MatchLoop S
  flush_each [] m = m
  flush_each (d ∷ ds) m = flush_each ds (send_to (match_data d) (targets d.filter m) m)

  unfoldable pub flush_deferred : MatchLoop S → MatchLoop S
  unfolding flush_each
  flush_deferred m = flush_each m.deferred (record m { deferred = [] })
