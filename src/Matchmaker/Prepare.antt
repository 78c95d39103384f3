-- ===== src/Matchmaker/Prepare.antt =====
-- internal/matchmaker/matchmaker.go: what `submitLocked` fills in of a ticket, and the counts that it
-- refuses.
use ultimate_game_server.Prelude.{
  ℕ, String, Bool, false, ◌||◌, none, some, [], ◌∷◌, ltb, ◌==◌, if◌then◌else◌, length, same, ltb_ℤ,
  leb_ℤ, ℤ, pos, string_key,
}
use ultimate_game_server.Dict.{lookup}
use ultimate_game_server.Matchmaker.Ticket.{Presence, Ticket, QueueConfig, MatchmakerConfig}

-- The queue that is used when none is configured; its other fields are Go's zero values.
unfoldable pub bare_queue : String → QueueConfig
bare_queue name = record {
  name = name;
  min_players = pos 2;
  max_players = pos 8;
  count_multiple = pos 1;
  skill_match = record {
    enabled = false;
    initial_range = 0;
    max_range = 0;
    expansion_interval_sec = pos 0;
    expansion_step = 0;
  };
  region_match = record { strict = false; fallback_delay_sec = pos 0 };
  reverse_precision = record { enabled = false; reverse_threshold_ticks = pos 0 };
}

unfoldable pub queue_config : String → MatchmakerConfig → QueueConfig
unfolding bare_queue
queue_config name cfg = elim (lookup name cfg.queues) [
  | some q ↦ q
  | none ↦ elim (lookup "default" cfg.queues) [
    | some q ↦ record q { name = name }
    | none ↦ bare_queue name
  ]
]

abbrev positive_or : ℤ → ℤ → ℤ
positive_or a b = if leb_ℤ a (pos 0) then b else a

abbrev pub text_or : String → String → String
text_or a b = if same a "" then b else a

-- The names and the time that `submitLocked` fills in.
unfoldable pub name_ticket : ℕ → String → String → Ticket → Ticket
name_ticket now fresh_id fresh_session t = record t {
  id = text_or t.id fresh_id;
  created_at = if t.created_at == 0 then now else t.created_at;
  queue_name = text_or t.queue_name "default";
  session_id = text_or t.session_id fresh_session;
  query = text_or t.query "*";
}

-- The counts that it fills in.
unfoldable pub count_ticket : QueueConfig → Ticket → Ticket
count_ticket q t = record t {
  min_count = positive_or t.min_count q.min_players;
  max_count = positive_or t.max_count q.max_players;
  count_multiple = positive_or t.count_multiple (positive_or q.count_multiple (pos 1));
  count =
      positive_or t.count (if ltb 0 (length t.presences) then pos (length t.presences) else pos 1);
}

unfoldable pub own_presence : Ticket → Presence
own_presence t = record {
  user_id = t.user_id;
  username = t.username;
  session_id = t.session_id;
  node = "";
}

-- The rest that it fills in.
unfoldable pub complete_ticket : Ticket → Ticket
unfolding own_presence
complete_ticket t = record t {
  presences = if length t.presences == 0 then own_presence t ∷ [] else t.presences;
  region = elim (lookup "region" t.string_properties) [
    | none ↦ t.region
    | some region ↦ text_or t.region region
  ];
  status = "queued";
  intervals = pos 0;
}

unfoldable pub prepare_ticket : ℕ → String → String → MatchmakerConfig → Ticket → Ticket
unfolding name_ticket count_ticket complete_ticket queue_config
prepare_ticket now fresh_id fresh_session cfg t =
    let named = name_ticket now fresh_id fresh_session t in
    complete_ticket (count_ticket (queue_config named.queue_name cfg) named)

-- The two refusals of a ticket for its counts.
unfoldable pub counts_invalid : Ticket → Bool
counts_invalid t =
    (ltb_ℤ t.min_count (pos 2) || (ltb_ℤ t.max_count t.min_count || ltb_ℤ t.count_multiple (pos 1)))
    || ltb_ℤ t.max_count t.count
