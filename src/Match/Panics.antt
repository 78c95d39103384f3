-- ===== src/Match/Panics.antt =====
-- internal/match/loop.go: a tick in which a handler panics.
use ultimate_game_server.Prelude.{string_key}
