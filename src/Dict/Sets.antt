-- ===== src/Dict/Sets.antt =====
-- Go's `map[K]struct{}`: a set of keys.
use ultimate_game_server.Prelude.{Key, string_key}
use ultimate_game_server.Dict.Defs.{Dict, insert}

abbrev pub KeySet {ℓ} : Type ℓ → Type ℓ
KeySet K = Dict K Unit

abbrev pub add {ℓ} : {K : Type ℓ} ⦃e : Key K⦄ → K → KeySet K → KeySet K
add k s = insert k tt s
