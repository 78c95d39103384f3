-- ===== src/Matchmaker/Ticket.antt =====
-- internal/matchmaker/matchmaker.go: tickets and the configuration of a queue. Times are
-- nanoseconds of one clock, a float64 is its 64 bits, an `int` is not wrapped.
use ultimate_game_server.Prelude.{ℕ, String, Bool, List, ℤ, string_key}
use ultimate_game_server.Dict.{Dict}

pub record Presence : Type 0 where
  pub user_id : String
  pub username : String
  pub session_id : String
  pub node : String

pub record Ticket : Type 0 where
  pub id : String
  pub user_id : String
  pub username : String
  pub skill_rating : ℤ
  pub region : String
  pub created_at : ℕ
  pub query : String
  pub min_count : ℤ
  pub max_count : ℤ
  pub count_multiple : ℤ
  pub count : ℤ
  pub party_id : String
  pub session_id : String
  pub presences : List Presence
  pub intervals : ℤ
  pub string_properties : Dict String String
  pub numeric_properties : Dict String ℕ
  pub reverse_precision : Bool
  pub queue_name : String
  pub status : String
  pub match_id : String
  pub match_token : String

-- Only `Enabled` is read.
pub record SkillMatchConfig : Type 0 where
  pub enabled : Bool
  pub initial_range : ℕ
  pub max_range : ℕ
  pub expansion_interval_sec : ℤ
  pub expansion_step : ℕ

pub record RegionMatchConfig : Type 0 where
  pub strict : Bool
  pub fallback_delay_sec : ℤ

pub record ReversePrecisionConfig : Type 0 where
  pub enabled : Bool
  pub reverse_threshold_ticks : ℤ

pub record QueueConfig : Type 0 where
  pub name : String
  pub min_players : ℤ
  pub max_players : ℤ
  pub count_multiple : ℤ
  pub skill_match : SkillMatchConfig
  pub region_match : RegionMatchConfig
  pub reverse_precision : ReversePrecisionConfig

pub record MatchmakerConfig : Type 0 where
  pub processing_interval_ms : ℤ
  pub ticket_expiry_sec : ℤ
  pub max_tickets : ℤ
  pub max_intervals : ℤ
  pub token_ttl_sec : ℤ
  pub rev_precision : Bool
  pub use_redlock : Bool
  pub rate_limit_max : ℤ
  pub rate_limit_window_sec : ℤ
  pub token_secret : String
  pub queues : Dict String QueueConfig
