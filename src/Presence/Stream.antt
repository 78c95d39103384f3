-- ===== src/Presence/Stream.antt =====
-- internal/presence/stream_tracker.go: stream keys and the data of a presence.
use ultimate_game_server.Prelude.{
  ℕ, String, Bool, false, ltb, String-discrete, Key, ℤ, pos, negsuc, string_key,
}
use native.Mathlib.Decide.{ℕ_discrete}

unfoldable pub ℤ-discrete : Discrete ℤ
ℤ-discrete = hlevel ℕ_discrete

pub record StreamKey : Type 0 where
  pub mode : ℤ
  pub subject : String
  pub subcontext : String
  pub label : String

unfoldable pub StreamKey-discrete : Discrete StreamKey
unfolding ℤ-discrete
StreamKey-discrete = hlevel (ℤ-discrete, String-discrete)

instance abbrev pub stream_key : Key StreamKey
stream_key = record { dec = StreamKey-discrete }

pub record PresenceMeta : Type 0 where
  pub username : String
  pub status : String
  pub hidden : Bool

pub record StreamPresence : Type 0 where
  pub user_id : String
  pub meta : PresenceMeta

-- The exported `Presence`.
pub record Presence : Type 0 where
  pub session_id : String
  pub user_id : String
  pub meta : PresenceMeta

pub record StreamPresenceRemoval : Type 0 where
  pub key : StreamKey
  pub presence : Presence

-- `IsDomainStreamMode`: the modes 0 to 7.
unfoldable pub is_domain_stream_mode : ℤ → Bool
is_domain_stream_mode (pos n) = ltb n 8
is_domain_stream_mode (negsuc n) = false

abbrev bare : ℕ → StreamKey
bare mode = record { mode = pos mode; subject = ""; subcontext = ""; label = "" }

unfoldable pub status_stream : String → StreamKey
status_stream user = record (bare 1) { subject = user }

unfoldable pub notifications_stream : String → StreamKey
notifications_stream user = record (bare 0) { subject = user }

unfoldable pub party_stream : String → StreamKey
party_stream party = record (bare 7) { label = party }

unfoldable pub channel_stream : String → StreamKey
channel_stream label = record (bare 2) { label = label }

unfoldable pub group_stream : String → StreamKey
group_stream group = record (bare 3) { subject = group }

unfoldable pub dm_stream : String → String → StreamKey
dm_stream subject subcontext = record (bare 4) { subject = subject; subcontext = subcontext }

unfoldable pub match_relayed_stream : String → StreamKey
match_relayed_stream uuid = record (bare 5) { subject = uuid }

unfoldable pub match_authoritative_stream : String → String → StreamKey
match_authoritative_stream uuid node = record (bare 6) { subject = uuid; label = node }
