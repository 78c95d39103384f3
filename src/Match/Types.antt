-- ===== src/Match/Types.antt =====
-- internal/match/loop.go: the data of a match loop. `S` is what a handler keeps as its state; an
-- `interface{}` of it may be nil, so it is an `Option`. Messages are kept as data: their JSON is
-- not modelled.
use ultimate_game_server.Prelude.{ℕ, String, Bool, Option, List, ℤ, string_key}
use ultimate_game_server.Dict.{Dict}

pub record MatchPresence : Type 0 where
  pub user_id : String
  pub session_id : String
  pub username : String
  pub node_id : String

pub record MatchJoinRequest : Type 0 where
  pub user_id : String
  pub username : String
  pub metadata : Dict String String
  pub session_id : String

pub record MatchInput : Type 0 where
  pub user_id : String
  pub session_id : String
  pub username : String
  pub op_code : ℤ
  pub action : String
  pub payload : String
  pub reliable : Bool

pub record MatchData : Type 0 where
  pub presence : MatchPresence
  pub op_code : ℤ
  pub payload : String
  pub reliable : Bool
  pub receive_time : ℤ

-- The state of the demo, and of every match its tick and its end.
pub record MatchState : Type 0 where
  pub tick : ℤ
  pub score : Dict String ℤ
  pub positions : Dict String String
  pub is_finished : Bool

pub record Deferred : Type 0 where
  pub op_code : ℤ
  pub payload : String
  -- no session stands for all
  pub filter : List String
  pub sender : Option MatchPresence
  pub reliable : Bool

-- What a handler may ask of its dispatcher.
pub data Command : Type 0 where
  broadcast : Deferred → Command
  broadcast_deferred : Deferred → Command
  match_kick : List String → Command
  label_update : String → Command

-- A message to a session: of a broadcast, or the state of the demo.
pub data Message : Type 0 where
  match_data : Deferred → Message
  state_data : MatchState → Message

-- What a handler returns, `none` if it panics, and what it asked for up to there.
abbrev pub Reply : Type 0 → Type 0
Reply A = Option A × List Command

-- `runtime.Match`: code of a plugin.
pub record GoMatch (S : Type 0) : Type 0 where
  pub match_join_attempt :
      ℤ → Option S → MatchPresence → Dict String String → Reply (Option S × Bool × String)
  pub match_join : ℤ → Option S → List MatchPresence → Reply (Option S)
  pub match_leave : ℤ → Option S → List MatchPresence → Reply (Option S)
  pub match_signal : ℤ → Option S → String → Reply (Option S × String)
  pub match_loop : ℤ → Option S → List MatchData → Reply (Option S)
  -- the size of the state as JSON, 0 if it has none
  pub size : Option S → ℕ
  -- `json.Unmarshal` of that JSON into the state of the loop
  pub merge : S → MatchState → MatchState

pub data JoinResponse (S : Type 0) : Type 0 where
  let_in : Option S → JoinResponse S
  kept_out : String → JoinResponse S

pub record MatchLoop (S : Type 0) : Type 0 where
  pub node : String
  pub tick_rate : ℕ
  pub max_empty_sec : ℕ
  pub go_match : Option (GoMatch S)
  pub go_state : Option S
  pub state : MatchState
  pub presences : Dict String MatchPresence
  pub inputs : List MatchInput
  pub join_requests : List MatchJoinRequest
  pub leave_requests : List String
  pub signal_requests : List String
  pub deferred : List Deferred
  pub label : String
  pub empty_ticks : ℕ
  -- what went out: to sessions, and as responses to join and signal requests
  pub sent : List (String × Message)
  pub responses : List (String × JoinResponse S)
  pub signal_results : List String
